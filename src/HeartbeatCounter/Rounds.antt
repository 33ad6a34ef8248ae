-- ===== src/HeartbeatCounter/Rounds.antt =====
-- `tick` of src/HeartbeatCounter.cpp: the timers that ran out each count one missed heartbeat and
-- start again; the sessions at the limit are given up.
use mathlib.Core.Option
use dwt_src.Prelude.{
  ℕ, suc, ◌+◌, ◌*◌, ◌≤◌, ◌<◌, ◌⊎◌, length, ◌≡◌, refl, ap, ◌∙◌, Bool, true, false, Option, none,
  some, List, [], ◌∷◌, arith, Option-cases, Bool-cases, inl, inr, ◌==◌, if◌then◌else◌, Returns,
  returns, Returns-bind, Returns-map,
}
use dwt_src.IndexedHeap.Index.{lookup}
use dwt_src.IndexedHeap.Methods
use dwt_src.IndexedHeap.Drain.{All, times, Runs, Drains}
use dwt_src.HeapTimer.{TimerNode, timer_node, ms, call_all}
use dwt_src.HeapTimer.Expiry.{lasts}
use dwt_src.HeapTimer.Expiry
use dwt_src.HeapHeartbeatCounter.{HeartBeatCounterNode, counter_node}
use dwt_src.HeapHeartbeatCounter.Limits
use dwt_src.HeartbeatCounter.{
  HeartbeatCounter, TimeoutCallback, timeout_func, ReachCallback, heartbeat_reach, timeout_default,
  reach_default, is_timeout_func, is_heartbeat_reach, run_timeout_func, call_timeout,
  run_heartbeat_reach, call_reach,
}
use dwt_src.HeartbeatCounter.Dictionaries.{Timers, Counters, IsValid}

abbrev pub TimerEntry : Type 0
TimerEntry = TimerNode TimeoutCallback

abbrev pub CounterEntry : Type 0
CounterEntry = HeartBeatCounterNode ReachCallback

abbrev pub TimedOut : TimerEntry → Type 0
TimedOut n = n.cb ≡ timeout_func

abbrev pub more_missed : ℕ → CounterEntry → CounterEntry
more_missed m n = record n { heartbeat_count = n.heartbeat_count + m }

-- What the callbacks of the nodes `ns` did: each node's timer runs again, and its count is higher
-- by the number of its callbacks.
pub record Restarted (timeout : ℕ) (now : ℕ → ℕ) (t : Timers) (c : Counters) (ns : List TimerEntry)
    (r : Timers × Counters) : Type 0 where
  pub timer : Methods.IsValid r.0
  pub counter : Methods.IsValid r.1
  pub counts : (j : ℕ) → lookup r.1 j ≡ Option.map (more_missed (times j ns)) (lookup c j)
  pub others : (j : ℕ) → times j ns ≡ 0 → lookup r.0 j ≡ lookup t j
  pub again :
      (j : ℕ)
      → 0 < times j ns
      → (round : ℕ) × (lookup r.0 j
          ≡ some (record { id = j; expires = now round + timeout * ms; cb = timeout_func }))

-- One callback.
pub record CalledBack (expires id : ℕ) (t : Timers) (c : Counters) (r : Timers × Counters)
    : Type 0 where
  pub timer : Methods.IsValid r.0
  pub counter : Methods.IsValid r.1
  pub timers :
      (j : ℕ)
      → lookup r.0 j ≡ (
          if id == j
          then some (record { id = id; expires = expires; cb = timeout_func })
          else lookup t j)
  pub counts :
      (j : ℕ)
      → lookup r.1 j ≡ (if id == j then Option.map (more_missed 1) (lookup c id) else lookup c j)

call_timeout-CalledBack :
    (timeout : ℕ) (now : ℕ → ℕ) (k : ℕ) (n : TimerEntry) (t : Timers) (c : Counters)
    → TimedOut n
    → Methods.IsValid t
    → Methods.IsValid c
    → Returns (CalledBack (now k + timeout * ms) n.id t c) (call_timeout timeout now k n (t, c))
unfolding call_timeout run_timeout_func
call_timeout-CalledBack timeout now k n t c bound tv cv =
    let is_bound : is_timeout_func n.cb ≡ true = ap is_timeout_func bound in
    rw is_bound (
      Returns-bind (Expiry.timer_push_lem t tv n.id timeout timeout_func (now k))
        λ t' (tv', timers). Returns-bind (Limits.add_one_lem c cv n.id) λ c' (cv', counts).
          returns (record { timer = tv'; counter = cv'; timers = timers; counts = counts }))

pub call_all-Restarted :
    (timeout : ℕ) (now : ℕ → ℕ) (ns : List TimerEntry) (k : ℕ) (t : Timers) (c : Counters)
    → All TimedOut ns
    → Methods.IsValid t
    → Methods.IsValid c
    → Returns (Restarted timeout now t c ns) (call_all (call_timeout timeout now) k ns (t, c))
unfolding call_all
call_all-Restarted timeout now [] k t c bound tv cv = returns (record {
  timer = tv;
  counter = cv;
  counts =
      λ j. elim (Option-cases (lookup c j)) [ inl e ↦ ground arith | inr (x, e) ↦ ground arith ];
  others = λ j e. refl;
  again = λ j h. absurd (omega arith);
})
call_all-Restarted timeout now (n ∷ ns) k t c bound tv cv =
    Returns-bind (call_timeout-CalledBack timeout now k n t c bound.0 tv cv) λ (t', c') one.
      Returns-map (call_all-Restarted timeout now ns (suc k) t' c' bound.1 one.timer one.counter)
        λ (t'', c'') rest. record {
          timer = rest.timer;
          counter = rest.counter;
          counts = λ j. elim (Option-cases (lookup c j)) [
            | inl e ↦ ground (arith, rest.counts j, one.counts j)
            | inr (x, e) ↦ ground (arith, rest.counts j, one.counts j)
          ];
          others = λ j e. ground (arith, rest.others j, one.timers j);
          again = λ j h. elim (Bool-cases (0 == times j ns)) [
            | inl e ↦ (k, ground (arith, rest.others j, one.timers j))
            | inr e ↦ rest.again j (ground arith)
          ];
        }

-- What `heartbeatReach` does for one session: its timer is gone, and the server was told.
pub record Reached {W : Type 0} (reach : ℕ → W → W) (n : CounterEntry) (s r : Timers × W)
    : Type 0 where
  pub timers : (j : ℕ) → lookup r.0 j ≡ (if n.id == j then none else lookup s.0 j)
  pub told : r.1 ≡ reach n.id s.1

pub call_reach-Reached :
    {W : Type 0} (reach : ℕ → W → W) (n : CounterEntry) (s : Timers × W)
    → n.cb ≡ heartbeat_reach
    → Methods.IsValid s.0
    → Returns (λ r. Reached reach n s r × Methods.IsValid r.0) (call_reach reach n s)
unfolding call_reach run_heartbeat_reach
call_reach-Reached reach n (t, w) bound tv =
    let is_bound : is_heartbeat_reach n.cb ≡ true = ap is_heartbeat_reach bound in
    rw is_bound (
      Returns-bind (Expiry.timer_del_lem t tv n.id)
        λ t' (tv', timers). returns (record { timers = timers; told = refl }, tv'))

-- The sessions that were given up, in order: the timers lose them, and the server is told of each.
unfoldable pub tell_all : {W : Type 0} → (ℕ → W → W) → List CounterEntry → W → W
tell_all reach [] w = w
tell_all reach (n ∷ ns) w = tell_all reach ns (reach n.id w)

pub Runs-Reached :
    {W : Type 0} (reach : ℕ → W → W) (ns : List CounterEntry) (s r : Timers × W)
    → Runs (Reached reach) s ns r
    → ((j : ℕ) → lookup r.0 j ≡ (if 0 == times j ns then lookup s.0 j else none))
      × (r.1 ≡ tell_all reach ns s.1)
unfolding tell_all
Runs-Reached {W} reach [] s r e =
    (λ j. ap (λ (x : Timers × W). lookup x.0 j) e, ap (λ (x : Timers × W). x.1) e)
Runs-Reached reach (n ∷ ns) s r (u, one, rest) =
    let ih = Runs-Reached reach ns u r rest in
    (λ j. ground (arith, ih.0 j, one.timers j), ih.1 ∙ ap (tell_all reach ns) one.told)

abbrev pub is_known : {A : Type 0} → Option A → Bool
is_known none = false
is_known (some _) = true

-- One round of `tick` from the state `c` and the world `w`, with the clock of the timer's loop: the
-- timers `fired` ran out, in turn, each with less than a millisecond left at its reading, and
-- `between` are the timers that stayed.
pub record Ticked {W : Type 0} (reach : ℕ → W → W) (clock now : ℕ → ℕ) (c : HeartbeatCounter)
    (w : W) (c' : HeartbeatCounter) (w' : W) : Type 0 where
  pub valid : IsValid c'
  pub limits : (c'.m_timeout ≡ c.m_timeout) × (c'.max_heartbeat ≡ c.max_heartbeat)
  pub fired : List TimerEntry
  pub between : Timers
  pub in_turn : Drains (lasts clock) 0 (lookup c.m_timer) fired (lookup between)
  pub dead : List CounterEntry
  pub told : w' ≡ tell_all reach dead w
  pub under_limit :
      (k : ℕ) (x : CounterEntry)
      → lookup c'.m_counter k ≡ some x
      → x.heartbeat_count < c.max_heartbeat
  pub fate :
      (k : ℕ) (n : TimerEntry)
      → lookup c.m_timer k ≡ some n
      → ((times k fired ≡ 0) × (clock (length fired) + 1000000 ≤ n.expires))
        ⊎ ((times k fired ≡ 1) × ((m : ℕ) × (m < length fired) × (n.expires < clock m + 1000000)))
  pub quiet :
      (k : ℕ) (n : TimerEntry) (x : CounterEntry)
      → lookup c.m_timer k ≡ some n
      → lookup c.m_counter k ≡ some x
      → times k fired ≡ 0
      → x.heartbeat_count < c.max_heartbeat
      → (lookup c'.m_timer k ≡ some n) × (lookup c'.m_counter k ≡ some x) × (times k dead ≡ 0)
  pub missed_one :
      (k : ℕ) (n : TimerEntry) (x : CounterEntry)
      → lookup c.m_timer k ≡ some n
      → lookup c.m_counter k ≡ some x
      → times k fired ≡ 1
      → x.heartbeat_count + 1 < c.max_heartbeat
      → (lookup c'.m_counter k ≡ some (more_missed 1 x))
        × (times k dead ≡ 0)
        × ((round : ℕ) × (lookup c'.m_timer k
              ≡ some
                  (record { id = k; expires = now round + c.m_timeout * ms; cb = timeout_func })))
  pub given_up :
      (k : ℕ) (n : TimerEntry) (x : CounterEntry)
      → lookup c.m_timer k ≡ some n
      → lookup c.m_counter k ≡ some x
      → c.max_heartbeat ≤ x.heartbeat_count + times k fired
      → (lookup c'.m_timer k ≡ none) × (lookup c'.m_counter k ≡ none) × (times k dead ≡ 1)
  pub unknown :
      (k : ℕ)
      → lookup c.m_counter k ≡ none
      → (lookup c'.m_timer k ≡ none) × (lookup c'.m_counter k ≡ none) × (times k dead ≡ 0)
  pub lost :
      (k : ℕ)
      → is_known (lookup c'.m_counter k)
        ≡ (if 0 == times k dead then is_known (lookup c.m_counter k) else false)
