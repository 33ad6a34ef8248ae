-- ===== src/Tests/Heaps.antt =====
-- The heaps and the heartbeat counter at concrete inputs.
use mathlib.Core.Option
use dwt_src.Prelude.{
  ℕ, ◌+◌, ◌-◌, ◌<◌, ◌≡◌, refl, none, some, List, [], ◌∷◌, arith, ◌==◌, if◌then◌else◌, length,
  Outcome, ok, Returns, returns, Returns-inv,
}
use dwt_src.IndexedHeap
use dwt_src.IndexedHeap.{HeapNode, IndexedHeap}
use dwt_src.IndexedHeap.Index.{at, lookup}
use dwt_src.IndexedHeap.Methods
use dwt_src.IndexedHeap.Methods.{Holds, put}
use dwt_src.IndexedHeap.Removal.{delete_node-Holds, lookup-size}
use dwt_src.HeapTimer
use dwt_src.HeapTimer.{TimerNode, HeapTimer, timer_node, ms, take_expired}
use dwt_src.HeapTimer.Expiry.{Expired, timer_push_lem, take_expired_lem}
use dwt_src.HeapHeartbeatCounter
use dwt_src.HeapHeartbeatCounter.{HeartBeatCounterNode, HeapHeartBeatCounter, counter_node}
use dwt_src.HeapHeartbeatCounter.Limits
use dwt_src.HeapHeartbeatCounter.Limits.{
  count_push_lem, count_adjust_lem, add_one_lem, count_tick_lem,
}
use dwt_src.HeartbeatCounter.{
  TimeoutCallback, timeout_func, ReachCallback, heartbeat_reach, timeout_default, reach_default,
}

abbrev no_timers : HeapTimer TimeoutCallback
no_timers = IndexedHeap.empty

abbrev due : ℕ → ℕ → TimerNode TimeoutCallback
due id expires = record { id = id; expires = expires; cb = timeout_func }

-- A heap with one timer, then one with two.
abbrev Pushed : HeapTimer TimeoutCallback → ℕ → ℕ → HeapTimer TimeoutCallback → Type 0
Pushed h id expires h' =
    Methods.IsValid h'
    × ((k : ℕ) → lookup h' k ≡ (if id == k then some (due id expires) else lookup h k))

abbrev one_timer :
    (h : HeapTimer TimeoutCallback) × (HeapTimer.push no_timers 7 2 timeout_func 0 ≡ ok h)
    × Pushed no_timers 7 2000000 h
one_timer = Returns-inv (timer_push_lem no_timers Methods.empty-IsValid 7 2 timeout_func 0)

abbrev two_timers :
    (h : HeapTimer TimeoutCallback) × (HeapTimer.push one_timer.0 9 5 timeout_func 1000000 ≡ ok h)
    × Pushed one_timer.0 9 6000000 h
two_timers = Returns-inv (timer_push_lem one_timer.0 one_timer.2.0 9 5 timeout_func 1000000)

take_expired_lem_example :
    Returns
      (λ (h', fired). Expired two_timers.0 two_timers.2.0 (λ round. 4000000 + round) h' fired)
      (take_expired (λ round. 4000000 + round) two_timers.0)
take_expired_lem_example = take_expired_lem two_timers.0 two_timers.2.0 (λ round. 4000000 + round)

one_timer-there : lookup one_timer.0 7 ≡ some (due 7 2000000)
one_timer-there = ground (arith, one_timer.2.1 7)

one_timer-size : 0 < length one_timer.0.m_heap
one_timer-size = lookup-size one_timer.0 one_timer.2.0 7 (due 7 2000000) one_timer-there

delete_node-Holds_example :
    Returns
      (Holds (length one_timer.0.m_heap - 1) (put (lookup one_timer.0) (at one_timer.0 0).id none))
      (IndexedHeap.delete_node one_timer.0 0)
delete_node-Holds_example = delete_node-Holds one_timer.0 one_timer.2.0 0 one_timer-size

abbrev no_counts : HeapHeartBeatCounter ReachCallback
no_counts = IndexedHeap.empty

abbrev counted : ℕ → ℕ → HeartBeatCounterNode ReachCallback
counted id heartbeat_count = record {
  id = id;
  heartbeat_count = heartbeat_count;
  cb = heartbeat_reach;
}

abbrev Counted :
    HeapHeartBeatCounter ReachCallback → ℕ → HeapHeartBeatCounter ReachCallback → Type 0
Counted h id h' =
    Methods.IsValid h'
    × ((k : ℕ) → lookup h' k ≡ (if id == k then some (counted id 0) else lookup h k))

abbrev one_count :
    (h : HeapHeartBeatCounter ReachCallback) × (HeapHeartbeatCounter.push no_counts 7
        heartbeat_reach
      ≡ ok h)
    × Counted no_counts 7 h
one_count = Returns-inv (count_push_lem no_counts Methods.empty-IsValid 7 heartbeat_reach)

-- The count of session 7 changed by `f`.
abbrev Recounted : (ℕ → ℕ) → HeapHeartBeatCounter ReachCallback → Type 0
Recounted f h' =
    Methods.IsValid h'
    × ((k : ℕ)
        → lookup h' k ≡ (
            if 7 == k
            then Option.map {A = HeartBeatCounterNode ReachCallback}
                (λ n. record n { heartbeat_count = f n.heartbeat_count }) (lookup one_count.0 7)
            else lookup one_count.0 k))

-- A callback that notes the id.
abbrev note : HeartBeatCounterNode ReachCallback → List ℕ → Outcome (List ℕ)
note n w = ok (n.id ∷ w)

abbrev Noted : HeartBeatCounterNode ReachCallback → List ℕ → List ℕ → Type 0
Noted n w w' = w' ≡ n.id ∷ w

count_tick_lem_example :
    Returns
      (λ (h', w').
        Limits.Ticked one_count.0 one_count.2.0 0 note
          (λ _. Unit {0})
          (λ _. Unit {0})
          Noted
          []
          h'
          w')
      (HeapHeartbeatCounter.tick 0 note (one_count.0, []))
count_tick_lem_example =
    count_tick_lem one_count.0 one_count.2.0 0 note (λ _. Unit {0}) (λ _. Unit {0}) Noted []
      (λ n u _ _. returns (refl, tt)) (λ j n e. tt) tt
