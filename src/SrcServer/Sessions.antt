-- ===== src/SrcServer/Sessions.antt =====
-- The session table of the server against its heartbeat counter.
use dwt_src.Prelude.{
  ℕ, ◌*◌, ◌+◌, ◌≡◌, ◌≢◌, refl, ap, ◌∙◌, sym, true, false, Option, none, some, List, [], ◌∷◌, arith,
  Option-cases, inl, inr, ◌==◌, ◌&&◌, if◌then◌else◌, Returns, returns, Returns-bind, Returns-if,
}
use dwt_src.IndexedHeap.Index.{lookup}
use dwt_src.IndexedHeap.Drain.{times}
use dwt_src.HeapTimer.{ms, timer_node}
use dwt_src.HeapHeartbeatCounter.{counter_node}
use dwt_src.HeartbeatCounter.{HeartbeatCounter, timeout_default, reach_default}
use dwt_src.HeartbeatCounter.Dictionaries
use dwt_src.HeartbeatCounter.Dictionaries.{deadline, missed}
use dwt_src.HeartbeatCounter.Rounds.{is_known, tell_all, Ticked, CounterEntry}
use dwt_src.HeartbeatCounter.Fates
use dwt_src.SessionManager.{SessionManager, exist, exist_lem}
use dwt_src.Services
use dwt_src.SrcServer.{SrcServer, on_heartbeat_reach_limit, on_tick, on_udp_message}

-- The heartbeat counter is valid, and the sessions that exist are those that it counts.
pub record IsValid (s : SrcServer) : Type 0 where
  pub heartbeats : Dictionaries.IsValid s.m_heartbeat_counter
  pub tracked :
      (k : ℕ) → exist s.m_session_manager k ≡ is_known (lookup s.m_heartbeat_counter.m_counter k)

pub is_known-missed :
    (c : HeartbeatCounter) (k : ℕ) → is_known (missed c k) ≡ is_known (lookup c.m_counter k)
is_known-missed c k = elim (Option-cases (lookup c.m_counter k)) [
  | inl e ↦ ground arith
  | inr (x, e) ↦ ground arith
]

pub is_known-some : {A : Type 0} (o : Option A) → is_known o ≡ true → (x : A) × (o ≡ some x)
is_known-some none e = absurd (ground arith)
is_known-some (some x) e = (x, refl)

pub known_some : {A : Type 0} (o : Option A) → o ≢ none → is_known o ≡ true
known_some none e = absurd (e refl)
known_some (some x) e = refl

tell_all-exist :
    (ns : List CounterEntry) (w : SessionManager × Services.Services) (k : ℕ)
    → exist (tell_all on_heartbeat_reach_limit ns w).0 k
      ≡ (if 0 == times k ns then exist w.0 k else false)
unfolding tell_all on_heartbeat_reach_limit
tell_all-exist [] w k = refl
tell_all-exist (n ∷ ns) w k =
    let ih = tell_all-exist ns (on_heartbeat_reach_limit n.id w) k in
    ground (arith, ih, (exist_lem w.0 n.id k []).1)

-- The registry after the ephemeral nodes of these sessions were removed, one session after the other.
abbrev pub without_ephemeral : List CounterEntry → Services.Services → Services.Services
without_ephemeral [] services = services
without_ephemeral (n ∷ ns) services = without_ephemeral ns (Services.remove_ephemeral services n.id)

tell_all-without_ephemeral :
    (ns : List CounterEntry) (w : SessionManager × Services.Services)
    → (tell_all on_heartbeat_reach_limit ns w).1 ≡ without_ephemeral ns w.1
unfolding tell_all on_heartbeat_reach_limit
tell_all-without_ephemeral [] w = refl
tell_all-without_ephemeral (n ∷ ns) w =
    tell_all-without_ephemeral ns (on_heartbeat_reach_limit n.id w)

-- A round of the server: that of the heartbeat counter, in which the sessions given up are removed
-- and so are their ephemeral nodes.
pub record Round (clock now : ℕ → ℕ) (s s' : SrcServer) : Type 0 where
  pub valid : IsValid s'
  pub ticked :
      Ticked on_heartbeat_reach_limit clock now s.m_heartbeat_counter
        (s.m_session_manager, s.services)
        s'.m_heartbeat_counter
        (s'.m_session_manager, s'.services)
  pub sessions :
      (k : ℕ)
      → exist s'.m_session_manager k
        ≡ (if 0 == times k ticked.dead then exist s.m_session_manager k else false)
  pub registry : s'.services ≡ without_ephemeral ticked.dead s.services

module _ (s : SrcServer) (v : IsValid s) where
  pub on_tick_lem : (clock now : ℕ → ℕ) → Returns (Round clock now s) (on_tick clock now s)
  unfolding on_tick
  on_tick_lem clock now =
      Returns-bind
        (Fates.heartbeat_tick_lem on_heartbeat_reach_limit clock now s.m_heartbeat_counter
          (s.m_session_manager, s.services) v.heartbeats)
        λ (c, w) t.
          let sessions : (k : ℕ)
              → exist w.0 k ≡ (if 0 == times k t.dead then exist s.m_session_manager k else false) =
            λ k.
              ap (λ (x : SessionManager × Services.Services). exist x.0 k) t.told
              ∙ tell_all-exist t.dead (s.m_session_manager, s.services) k in
          returns (record {
            valid = record {
              heartbeats = t.valid;
              tracked = λ k. ground (arith, sessions k, v.tracked k, t.lost k);
            };
            ticked = t;
            sessions = sessions;
            registry =
                ap (λ (x : SessionManager × Services.Services). x.1) t.told
                ∙ tell_all-without_ephemeral t.dead (s.m_session_manager, s.services);
          })

  -- From a valid state, a heartbeat gives its session, if it exists, a full timeout and no missed
  -- heartbeat; the state is valid again, no other session is affected, and no session or node
  -- appears or goes.
  pub on_udp_message_lem :
      (id now : ℕ)
      → Returns
          (λ s'.
            IsValid s'
            × (s'.m_session_manager ≡ s.m_session_manager)
            × (s'.services ≡ s.services)
            × ((k : ℕ)
                → missed s'.m_heartbeat_counter k ≡ (
                    if (id == k) && exist s.m_session_manager id
                    then some 0
                    else missed s.m_heartbeat_counter k))
            × ((k : ℕ)
                → deadline s'.m_heartbeat_counter k ≡ (
                    if (id == k) && exist s.m_session_manager id
                    then some (now + s.m_heartbeat_counter.m_timeout * ms)
                    else deadline s.m_heartbeat_counter k)))
          (on_udp_message s id now)
  unfolding on_udp_message
  on_udp_message_lem id now =
      Returns-if (exist s.m_session_manager id)
        (λ here.
          Returns-bind (Dictionaries.heartbeat_reset_lem s.m_heartbeat_counter v.heartbeats id now)
            λ c (cv, counts, deadlines).
              let (x, counted) = is_known-some _ (sym (v.tracked id) ∙ here) in
              let (n, timed) =
                is_known-some _ (known_some _ (v.heartbeats.timed id (λ e. ground arith))) in
              returns (
                record {
                  heartbeats = cv;
                  tracked = λ k. ground (
                    arith,
                    v.tracked k,
                    counts k,
                    is_known-missed c k,
                    is_known-missed s.m_heartbeat_counter k,
                  );
                },
                refl,
                refl,
                λ k. ground (arith, counts k),
                λ k. ground (arith, deadlines k),
              ))
        (λ away. returns (v, refl, refl, λ k. ground arith, λ k. ground arith))
