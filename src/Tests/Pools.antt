-- ===== src/Tests/Pools.antt =====
-- The pool of loops, and the start of a thread, at a concrete input.
use dwt_src.Prelude.{◌≡◌, ◌<◌, ◌≤◌, ◌⊎◌, ◌+◌, ◌*◌, refl, true, none, [], ◌∷◌, arith, Returns}
use dwt_src.EventLoopThread.{
  EventLoopThread, free, by_worker, returned, waiting, bound, lock, unlock, bind_loop,
  starter_locks, starter_waits, worker_locks, worker_binds, by_starter,
}
use dwt_src.EventLoopThread.Handshake.{Reached, starts, steps, CanStep, start_loop_lem}
use dwt_src.EventLoopThreadPool.{EventLoopThreadPool}
use dwt_src.EventLoopThreadPool.Turns.{next_loops, in_turn, next_loops_lem}

abbrev three : EventLoopThreadPool
three = record {
  m_base_loop = 100;
  m_started = true;
  m_num_threads = 3;
  m_next = 1;
  m_loops = 101 ∷ 102 ∷ 103 ∷ [];
}

next_loops_lem_example :
    Returns
      (λ (p', handed).
        (handed ≡ in_turn 4 three.m_loops 1) × (p'.m_loops ≡ three.m_loops) × (p'.m_next < 3))
      (next_loops 4 three)
next_loops_lem_example = next_loops_lem 4 three (omega arith)

abbrev unbound : EventLoopThread
unbound = record { m_loop = none; m_mutex = free }

-- `startLoop` waits, and the new thread has set `m_loop`.
abbrev bound_thread : EventLoopThread
bound_thread = bind_loop 7 (lock by_worker (unlock (lock by_starter unbound)))

bound_thread-Reached : Reached 7 4 0 bound_thread waiting bound
unfolding lock unlock bind_loop
bound_thread-Reached =
    steps
      (steps (steps (steps starts (starter_locks refl)) (starter_waits refl)) (worker_locks refl))
      worker_binds

start_loop_lem_example :
    (4 ≤ 16 + 3 * 0) × ((waiting ≡ returned 7) ⊎ (CanStep 7 bound_thread waiting bound))
start_loop_lem_example = start_loop_lem 7 4 0 bound_thread waiting bound bound_thread-Reached refl
