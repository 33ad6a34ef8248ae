-- ===== src/SrcServer/Runs.antt =====
-- Runs of the server: connections, requests, heartbeats and rounds of the thread, in any order.
use dwt_src.Prelude.{
  true, Option, ap, none, ℕ, suc, ◌≤◌, ◌≡◌, refl, subst, some, arith, Outcome, ok, Returns, returns,
  Returns-map, Returns-inv, Returns-value, Returns-bind, ◌>>=◌,
}
use dwt_src.Bytes.{Bytes}
use dwt_src.IndexedHeap.Drain.{times}
use dwt_src.IndexedHeap.Methods
use dwt_src.HeapTimer.{TimerNode, timer_node}
use dwt_src.HeapHeartbeatCounter.{HeartBeatCounterNode, counter_node}
use dwt_src.HeartbeatCounter
use dwt_src.HeartbeatCounter.{timeout_default, reach_default}
use dwt_src.HeartbeatCounter.Dictionaries.{deadline}
use dwt_src.SessionManager
use dwt_src.SessionManager.{exist}
use dwt_src.SrcServer.{
  SrcServer, ServerCodecs, init, on_message, on_udp_message, on_tick, thread_round,
}
use dwt_src.SrcServer.Sessions.{IsValid, on_tick_lem, on_udp_message_lem}
use dwt_src.SrcServer.Requests.{on_message_lem}

-- What the server reacts to. A round reads the clock many times, and the clock may go back.
pub data Event : Type 0 where
  message : (drawn now : ℕ) (peer sent : Bytes) → Event
  heartbeat : (session_id now : ℕ) → Event
  round : (clock now : ℕ → ℕ) → Event

pub init-IsValid : (timeout max_heartbeat : ℕ) → IsValid (init timeout max_heartbeat)
unfolding init SessionManager.empty SessionManager.exist HeartbeatCounter.init
init-IsValid timeout max_heartbeat =
    let no_timer = Methods.lookup-empty {N = TimerNode HeartbeatCounter.TimeoutCallback} in
    let no_counter =
      Methods.lookup-empty {N = HeartBeatCounterNode HeartbeatCounter.ReachCallback} in
    record {
      heartbeats = record {
        timer = Methods.empty-IsValid;
        counter = Methods.empty-IsValid;
        times_out = λ k n e. absurd (ground (arith, no_timer k));
        reaches = λ k n e. absurd (ground (arith, no_counter k));
        timed = λ k h. absurd (h (no_counter k));
        counted = λ k h. absurd (h (no_timer k));
      };
      tracked = λ k. rw (no_counter k) refl;
    }

module _ (codecs : ServerCodecs) where
  abbrev pub react : Event → SrcServer → Outcome SrcServer
  react (message drawn now peer sent) s =
      on_message codecs drawn now peer sent s >>= λ (s', out). ok s'
  react (heartbeat session_id now) s = on_udp_message s session_id now
  react (round clock now) s = on_tick clock now s

  -- The states that the server can reach.
  pub data Reach (timeout max_heartbeat : ℕ) : SrcServer → Type 0 where
    started : Reach timeout max_heartbeat (init timeout max_heartbeat)
    reacted :
        {s s' : SrcServer}
        → Reach timeout max_heartbeat s
        → (e : Event) → react e s ≡ ok s'
        → Reach timeout max_heartbeat s'

  react-IsValid : (e : Event) (s : SrcServer) → IsValid s → Returns IsValid (react e s)
  react-IsValid (message drawn now peer sent) s v =
      Returns-bind (on_message_lem codecs drawn now peer sent s v) λ (s', out) a. returns a.valid
  react-IsValid (heartbeat id now) s v = Returns-map (on_udp_message_lem s v id now) λ s' r. r.0
  react-IsValid (round clock now) s v = Returns-map (on_tick_lem s v clock now) λ s' r. r.valid

  Reach-IsValid :
      {timeout max_heartbeat : ℕ} {s : SrcServer} → Reach timeout max_heartbeat s → IsValid s
  Reach-IsValid started = init-IsValid _ _
  Reach-IsValid (reacted {s} r e step) =
      Returns-value (subst (Returns IsValid) step (react-IsValid e s (Reach-IsValid r)))

  -- In every state that the server can reach, the session table and the heartbeat counter hold the
  -- same sessions and the heaps are valid, and whatever comes next, the server's reaction returns.
  pub react_safe :
      {timeout max_heartbeat : ℕ} {s : SrcServer} (e : Event)
      → Reach timeout max_heartbeat s
      → IsValid s × ((s' : SrcServer) × (react e s ≡ ok s'))
  react_safe {s = s} e r =
      let v = Reach-IsValid r in
      let (a, same, w) = Returns-inv (react-IsValid e s v) in (v, (a, same))

-- Rounds of the thread with no heartbeat of session `k` in between, in each of which every reading of
-- the clock is past the session's deadline.
pub data Silent (k : ℕ) : ℕ → SrcServer → SrcServer → Type 0 where
  no_round : {s : SrcServer} → Silent k 0 s s
  late_round :
      {n : ℕ} {s s' s'' : SrcServer} (clock now : ℕ → ℕ)
      → ((t : ℕ) → deadline s.m_heartbeat_counter k ≡ some t → (i : ℕ) → t ≤ clock i)
      → on_tick clock now s ≡ ok s'
      → Silent k n s' s''
      → Silent k (suc n) s s''

-- From a valid state, whatever the clock reads, a turn of the heartbeat thread ends in a
-- valid state, whatever was received and whatever id is read from it; and a session that exists
-- after the turn existed before it.
thread_round_lem :
    (s : SrcServer) (read_id : Bytes → ℕ) (clock now : ℕ → ℕ) (arrival : ℕ)
    (received : Option Bytes)
    → IsValid s
    → Returns
        (λ s'.
          IsValid s'
          × ((k : ℕ) → exist s'.m_session_manager k ≡ true → exist s.m_session_manager k ≡ true))
        (thread_round read_id clock now arrival received s)
unfolding thread_round
thread_round_lem s read_id clock now arrival none v =
    Returns-bind (on_tick_lem s v clock now)
      λ s' r. returns (r.valid, λ k e. ground (arith, r.sessions k))
thread_round_lem s read_id clock now arrival (some buf) v =
    Returns-bind (on_tick_lem s v clock now) λ s' r.
      Returns-map (on_udp_message_lem s' r.valid (read_id buf) arrival)
        λ s'' (w, same, kept, counts, times).
          (w, λ k e. ground (arith, r.sessions k, ap (λ m. exist m k) same))
