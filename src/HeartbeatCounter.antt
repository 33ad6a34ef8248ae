-- ===== src/HeartbeatCounter.antt =====
-- src/HeartbeatCounter.h and src/HeartbeatCounter.cpp: a timer and a missed-heartbeat counter for each
-- session. A callback is a value that says which method is bound; the callback at the limit acts on
-- the rest of the server, `W`. The socket and its thread are not modelled: a round of the thread is
-- a `tick` and then at most one message (SrcServer.antt).
pub mod Dictionaries
pub mod Rounds
pub mod Fates
use dwt_src.Prelude.{ℕ, suc, ◌+◌, Bool, true, false, Outcome, ok, fault, ◌>>=◌, HasDefault}
use dwt_src.IndexedHeap
use dwt_src.HeapTimer
use dwt_src.HeapTimer.{TimerNode, HeapTimer, timer_node}
use dwt_src.HeapHeartbeatCounter
use dwt_src.HeapHeartbeatCounter.{HeartBeatCounterNode, HeapHeartBeatCounter, counter_node}

-- `TimeoutCallback`: empty, or `timeoutFunc` bound to the counter
pub data TimeoutCallback : Type 0 where
  no_timeout timeout_func : TimeoutCallback

-- `HeartbeatCountReachCallback`: empty, or `heartbeatReach` bound to the counter
pub data ReachCallback : Type 0 where
  no_reach heartbeat_reach : ReachCallback

instance abbrev pub timeout_default : HasDefault TimeoutCallback
timeout_default = record { default = no_timeout }

instance abbrev pub reach_default : HasDefault ReachCallback
reach_default = record { default = no_reach }

pub record HeartbeatCounter : Type 0 where
  pub m_timer : HeapTimer TimeoutCallback
  pub m_counter : HeapHeartBeatCounter ReachCallback
  pub m_timeout : ℕ
  pub max_heartbeat : ℕ

-- The constructor.
unfoldable pub init : ℕ → ℕ → HeartbeatCounter
init timeout max_heartbeat = record {
  m_timer = IndexedHeap.empty;
  m_counter = IndexedHeap.empty;
  m_timeout = timeout;
  max_heartbeat = max_heartbeat;
}

-- `timeoutFunc`: the timer starts again, and one more heartbeat is missed.
unfoldable pub run_timeout_func :
    ℕ
    → ℕ
    → ℕ
    → HeapTimer TimeoutCallback × HeapHeartBeatCounter ReachCallback
    → Outcome (HeapTimer TimeoutCallback × HeapHeartBeatCounter ReachCallback)
run_timeout_func timeout now id (timer, counter) = do
  timer' ← HeapTimer.push timer id timeout timeout_func now
  counter' ← HeapHeartbeatCounter.add_one counter id
  ok (timer', counter')

abbrev pub is_timeout_func : TimeoutCallback → Bool
is_timeout_func timeout_func = true
is_timeout_func no_timeout = false

abbrev pub is_heartbeat_reach : ReachCallback → Bool
is_heartbeat_reach heartbeat_reach = true
is_heartbeat_reach no_reach = false

-- A call of an empty `std::function` throws.
abbrev pub if_bound : {A : Type 0} → Bool → Outcome A → Outcome A
if_bound true body = body
if_bound false body = fault

-- The call of a timer's callback.
unfoldable pub call_timeout :
    ℕ
    → (ℕ → ℕ)
    → ℕ
    → TimerNode TimeoutCallback
    → HeapTimer TimeoutCallback × HeapHeartBeatCounter ReachCallback
    → Outcome (HeapTimer TimeoutCallback × HeapHeartBeatCounter ReachCallback)
call_timeout timeout now round n s =
    if_bound (is_timeout_func n.cb) (run_timeout_func timeout (now round) n.id s)

-- `heartbeatReach`: the timer is deleted, and the server's callback runs.
unfoldable pub run_heartbeat_reach :
    {W : Type 0}
    → (ℕ → W → W)
    → ℕ
    → HeapTimer TimeoutCallback × W
    → Outcome (HeapTimer TimeoutCallback × W)
run_heartbeat_reach reach id (timer, w) = do
  timer' ← HeapTimer.del timer id
  ok (timer', reach id w)

unfoldable pub call_reach :
    {W : Type 0}
    → (ℕ → W → W)
    → HeartBeatCounterNode ReachCallback
    → HeapTimer TimeoutCallback × W
    → Outcome (HeapTimer TimeoutCallback × W)
call_reach reach n s = if_bound (is_heartbeat_reach n.cb) (run_heartbeat_reach reach n.id s)

-- `tick`: the timers first, with the clock of their loop and that of their callbacks, then the
-- counters.
unfoldable pub tick :
    {W : Type 0}
    → (ℕ → W → W)
    → (ℕ → ℕ)
    → (ℕ → ℕ)
    → HeartbeatCounter × W
    → Outcome (HeartbeatCounter × W)
tick reach clock now (c, w) = do
  (timer, counter) ← HeapTimer.tick (call_timeout c.m_timeout now) clock (c.m_timer, c.m_counter)
  (counter', (timer', w')) ←
      HeapHeartbeatCounter.tick c.max_heartbeat (call_reach reach) (counter, (timer, w))
  ok (record c { m_timer = timer'; m_counter = counter' }, w')

unfoldable pub push : HeartbeatCounter → ℕ → ℕ → Outcome HeartbeatCounter
push c id now = do
  timer ← HeapTimer.push c.m_timer id c.m_timeout timeout_func now
  counter ← HeapHeartbeatCounter.push c.m_counter id heartbeat_reach
  ok (record c { m_timer = timer; m_counter = counter })

unfoldable pub reset : HeartbeatCounter → ℕ → ℕ → Outcome HeartbeatCounter
reset c id now = do
  counter ← HeapHeartbeatCounter.adjust c.m_counter id 0
  timer ← HeapTimer.adjust c.m_timer id c.m_timeout now
  ok (record c { m_timer = timer; m_counter = counter })
