-- ===== src/EventLoopThreadPool.antt =====
-- src/tcp/EventLoopThreadPool.h and src/tcp/EventLoopThreadPool.cpp: how connections are shared out
-- over the loops of the threads. A loop is a number; a new one comes from an argument.
pub mod Turns
use dwt_src.Prelude.{
  ℕ, zero, suc, ◌+◌, ◌%◌, Bool, true, List, [], ◌∷◌, ◌++◌, ◌==◌, leb, if◌then◌else◌, length,
  get_elem?, Outcome, ok, or_fault, ◌>>=◌,
}

pub record EventLoopThreadPool : Type 0 where
  pub m_base_loop : ℕ
  pub m_started : Bool
  pub m_num_threads : ℕ
  pub m_next : ℕ
  pub m_loops : List ℕ

-- The loop of `start`: `start_loop` is the event loop of the thread with that number.
abbrev pub start_loops : (ℕ → ℕ) → ℕ → ℕ → List ℕ
start_loops start_loop zero i = []
start_loops start_loop (suc n) i = start_loop i ∷ start_loops start_loop n (suc i)

-- `start`, whose callback for the threads is not modelled.
unfoldable pub start : EventLoopThreadPool → (ℕ → ℕ) → EventLoopThreadPool
start p start_loop = record p {
  m_started = true;
  m_loops = p.m_loops ++ start_loops start_loop p.m_num_threads 0;
}

unfoldable pub get_next_loop : EventLoopThreadPool → Outcome (EventLoopThreadPool × ℕ)
get_next_loop p =
    let turn : Outcome (EventLoopThreadPool × ℕ) = do
      loop ← or_fault (get_elem? p.m_loops p.m_next)
      ok (record p { m_next = (p.m_next + 1) % length p.m_loops }, loop)
    in if length p.m_loops == 0 then ok (p, p.m_base_loop) else turn

unfoldable pub get_all_loops : EventLoopThreadPool → List ℕ
get_all_loops p = if leb p.m_num_threads 0 then p.m_base_loop ∷ [] else p.m_loops
