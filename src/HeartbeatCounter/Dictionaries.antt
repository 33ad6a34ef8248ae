-- ===== src/HeartbeatCounter/Dictionaries.antt =====
-- The state of src/HeartbeatCounter.cpp as two dictionaries, and what `push` and `reset` do to them.
use mathlib.Core.Option
use dwt_src.Prelude.{
  ℕ, ◌+◌, ◌*◌, ◌≡◌, ◌≢◌, refl, Option, none, some, arith, Option-cases, inl, inr, ◌==◌,
  if◌then◌else◌, Returns, returns, Returns-bind,
}
use dwt_src.IndexedHeap.Index.{lookup}
use dwt_src.IndexedHeap.Methods
use dwt_src.HeapTimer.{TimerNode, HeapTimer, timer_node, ms}
use dwt_src.HeapTimer.Expiry
use dwt_src.HeapHeartbeatCounter.{HeartBeatCounterNode, HeapHeartBeatCounter, counter_node}
use dwt_src.HeapHeartbeatCounter.Limits
use dwt_src.HeartbeatCounter.{
  HeartbeatCounter, TimeoutCallback, timeout_func, ReachCallback, heartbeat_reach, timeout_default,
  reach_default, push, reset,
}

abbrev pub Timers : Type 0
Timers = HeapTimer TimeoutCallback

abbrev pub Counters : Type 0
Counters = HeapHeartBeatCounter ReachCallback

-- Both heaps are valid, their callbacks are those that `HeartbeatCounter` binds, and they hold the
-- same ids.
pub record ArePaired (t : Timers) (c : Counters) : Type 0 where
  pub timer : Methods.IsValid t
  pub counter : Methods.IsValid c
  pub times_out :
      (k : ℕ) (n : TimerNode TimeoutCallback) → lookup t k ≡ some n → n.cb ≡ timeout_func
  pub reaches :
      (k : ℕ) (n : HeartBeatCounterNode ReachCallback)
      → lookup c k ≡ some n
      → n.cb ≡ heartbeat_reach
  pub timed : (k : ℕ) → lookup c k ≢ none → lookup t k ≢ none
  pub counted : (k : ℕ) → lookup t k ≢ none → lookup c k ≢ none

abbrev pub IsValid : HeartbeatCounter → Type 0
IsValid c = ArePaired c.m_timer c.m_counter

-- The time at which the next heartbeat of the session is due, and how many were missed.
abbrev pub deadline : HeartbeatCounter → ℕ → Option ℕ
deadline c k = Option.map (λ (n : TimerNode TimeoutCallback). n.expires) (lookup c.m_timer k)

abbrev pub missed : HeartbeatCounter → ℕ → Option ℕ
missed c k =
    Option.map (λ (n : HeartBeatCounterNode ReachCallback). n.heartbeat_count)
      (lookup c.m_counter k)

abbrev pub limits : HeartbeatCounter → ℕ × ℕ
limits c = (c.m_timeout, c.max_heartbeat)

module _ (c : HeartbeatCounter) (v : IsValid c) where
  -- From a valid state, `push` returns a valid state in which the session has no missed heartbeat
  -- and a full timeout, every other session has what it had, and the timeout and the limit stay.
  pub heartbeat_push_lem :
      (id now : ℕ)
      → Returns
          (λ c'.
            IsValid c'
            × ((k : ℕ) → missed c' k ≡ (if id == k then some 0 else missed c k))
            × ((k : ℕ)
                → deadline c' k ≡ (if id == k then some (now + c.m_timeout * ms) else deadline c k))
            × (limits c' ≡ limits c))
          (push c id now)
  unfolding push
  heartbeat_push_lem id now =
      Returns-bind (Expiry.timer_push_lem c.m_timer v.timer id c.m_timeout timeout_func now)
        λ t (tv, timers).
          Returns-bind (Limits.count_push_lem c.m_counter v.counter id heartbeat_reach)
            λ u (uv, counts). returns (
              record {
                timer = tv;
                counter = uv;
                times_out = λ k n e. ground (arith, timers k, v.times_out k n);
                reaches = λ k n e. ground (arith, counts k, v.reaches k n);
                timed = λ k h. ground (arith, counts k, timers k, v.timed k);
                counted = λ k h. ground (arith, counts k, timers k, v.counted k);
              },
              λ k. ground (arith, counts k),
              λ k. ground (arith, timers k),
              refl,
            )

  -- From a valid state, `reset` returns a valid state in which the session, if it is known, has no
  -- missed heartbeat and a full timeout, and every other session has what it had.
  pub heartbeat_reset_lem :
      (id now : ℕ)
      → Returns
          (λ c'.
            IsValid c'
            × ((k : ℕ)
                → missed c' k ≡ (if id == k then Option.map (λ _. 0) (missed c id) else missed c k))
            × ((k : ℕ)
                → deadline c' k ≡ (
                    if id == k
                    then Option.map (λ _. now + c.m_timeout * ms) (deadline c id)
                    else deadline c k)))
          (reset c id now)
  unfolding reset
  heartbeat_reset_lem id now =
      Returns-bind (Limits.count_adjust_lem c.m_counter v.counter id 0) λ u (uv, counts).
        Returns-bind (Expiry.timer_adjust_lem c.m_timer v.timer id c.m_timeout now)
          λ t (tv, timers). returns (
            record {
              timer = tv;
              counter = uv;
              times_out = λ k n e. elim (Option-cases (lookup c.m_timer id)) [
                | inl m ↦ ground (arith, timers k, v.times_out k n)
                | inr (x, m) ↦ ground (arith, timers k, v.times_out k n, v.times_out id x m)
              ];
              reaches = λ k n e. elim (Option-cases (lookup c.m_counter id)) [
                | inl m ↦ ground (arith, counts k, v.reaches k n)
                | inr (x, m) ↦ ground (arith, counts k, v.reaches k n, v.reaches id x m)
              ];
              timed = λ k h. ground (arith, counts k, timers k, v.timed k);
              counted = λ k h. ground (arith, counts k, timers k, v.counted k);
            },
            λ k. ground (arith, counts k),
            λ k. ground (arith, timers k),
          )
