-- ===== src/EventLoop/Wakeups.antt =====
-- The loop of src/tcp/EventLoop.cpp between its own thread and the others: the calls `queueInLoop` and
-- `quit` of another thread are two steps each, the change and the write that wakes the loop.
use dwt_src.Prelude.{
  ℕ, suc, ◌<◌, ◌≡◌, ◌≢◌, refl, Bool, true, false, ◌⊎◌, inl, inr, List, [], ◌∷◌, arith,
}
use dwt_src.EventLoop.{
  EventLoop, wakeup, handle_read, push_functor, queue_in_loop, set_quit, quit, swap_functors,
  end_functors, start_looping,
}

-- Where the loop's thread is: before `loop`, at the poll, at the handlers of the active channels, at the functors
-- that it took, with those still to run, at the test of the loop, or behind the loop.
pub data Place (F : Type 0) : Type 0 where
  starting polling handling testing stopped : Place F
  running : List F → Place F

-- The functors run, or are taken only after another poll, or the loop's thread may wait.
abbrev calls : {F : Type 0} → Place F → Bool
calls (running funcs) = true
calls place = false

abbrev is_past_functors : {F : Type 0} → Place F → Bool
is_past_functors handling = false
is_past_functors stopped = false
is_past_functors place = true

abbrev waits : {F : Type 0} → Place F → Bool
waits polling = true
waits place = false

module _ {K F : Type 0} where
  -- The steps of all threads; `owed` is the number of other threads that are to write the wakeup of
  -- a change that they made.
  pub data Step : EventLoop K F → Place F → ℕ → EventLoop K F → Place F → ℕ → Type 0 where
    other_pushes :
        {l : EventLoop K F} {place : Place F} {owed : ℕ} (f : F)
        → Step l place owed (push_functor f l) place (suc owed)
    other_quits :
        {l : EventLoop K F} {place : Place F} {owed : ℕ}
        → Step l place owed (set_quit l) place (suc owed)
    other_wakes :
        {l : EventLoop K F} {place : Place F} {owed : ℕ}
        → Step l place (suc owed) (wakeup l) place owed
    quits_early : {l : EventLoop K F} {owed : ℕ} → Step l starting owed (quit true l) starting owed
    starts_looping :
        {l : EventLoop K F} {owed : ℕ} → Step l starting owed (start_looping l) testing owed
    poll_returns : {l : EventLoop K F} {owed : ℕ} → Step l polling owed l handling owed
    reads_wakeup :
        {l : EventLoop K F} {owed : ℕ} → Step l handling owed (handle_read l) handling owed
    handler_queues :
        {l : EventLoop K F} {owed : ℕ} (f : F)
        → Step l handling owed (queue_in_loop true f l) handling owed
    handler_quits :
        {l : EventLoop K F} {owed : ℕ} → Step l handling owed (quit true l) handling owed
    takes_functors :
        {l : EventLoop K F} {owed : ℕ}
        → Step l handling owed (swap_functors l).1 (running (swap_functors l).0) owed
    functor_queues :
        {l : EventLoop K F} {owed : ℕ} {funcs : List F} (f : F)
        → Step l (running funcs) owed (queue_in_loop true f l) (running funcs) owed
    functor_quits :
        {l : EventLoop K F} {owed : ℕ} {funcs : List F}
        → Step l (running funcs) owed (quit true l) (running funcs) owed
    functor_ends :
        {l : EventLoop K F} {owed : ℕ} {f : F} {funcs : List F}
        → Step l (running (f ∷ funcs)) owed l (running funcs) owed
    functors_end :
        {l : EventLoop K F} {owed : ℕ} → Step l (running []) owed (end_functors l) testing owed
    goes_on : {l : EventLoop K F} {owed : ℕ} → l.m_quit ≡ false → Step l testing owed l polling owed
    stops : {l : EventLoop K F} {owed : ℕ} → l.m_quit ≡ true → Step l testing owed l stopped owed

  -- What the threads can reach from before the call of `loop`, with nothing pending. Before it the
  -- loop's own thread queues nothing; other threads may.
  pub data Reached : EventLoop K F → Place F → ℕ → Type 0 where
    starts :
        {l : EventLoop K F}
        → l.m_pending_functors ≡ []
        → l.m_calling_pending_functors ≡ false
        → Reached l starting 0
    steps :
        {l l' : EventLoop K F} {place place' : Place F} {owed owed' : ℕ}
        → Reached l place owed
        → Step l place owed l' place' owed'
        → Reached l' place' owed'

  -- A wakeup was written, or another thread is to write one.
  abbrev pub Alert : EventLoop K F → ℕ → Type 0
  Alert l owed = (l.wakeup_readable ≡ true) ⊎ (0 < owed)

  record Safe (l : EventLoop K F) (place : Place F) (owed : ℕ) : Type 0 where
    calling : l.m_calling_pending_functors ≡ calls place
    pending : is_past_functors place ≡ true → l.m_pending_functors ≢ [] → Alert l owed
    quitting : waits place ≡ true → l.m_quit ≡ true → Alert l owed

  Step-Safe :
      {l l' : EventLoop K F} {place place' : Place F} {owed owed' : ℕ}
      → Step l place owed l' place' owed'
      → Safe l place owed
      → Safe l' place' owed'
  unfolding start_looping push_functor set_quit wakeup handle_read queue_in_loop quit swap_functors
      end_functors
  Step-Safe (other_pushes f) safe = record {
    calling = safe.calling;
    pending = λ past some_pending. inr (omega arith);
    quitting = λ waits is_quit. inr (omega arith);
  }
  Step-Safe other_quits safe = record {
    calling = safe.calling;
    pending = λ past some_pending. inr (omega arith);
    quitting = λ waits is_quit. inr (omega arith);
  }
  Step-Safe other_wakes safe = record {
    calling = safe.calling;
    pending = λ past some_pending. inl refl;
    quitting = λ waits is_quit. inl refl;
  }
  Step-Safe quits_early safe = record {
    calling = safe.calling;
    pending = safe.pending;
    quitting = λ waits. absurd (cc);
  }
  Step-Safe starts_looping safe = record {
    calling = safe.calling;
    pending = λ past. safe.pending refl;
    quitting = λ waits. absurd (cc);
  }
  Step-Safe poll_returns safe = record {
    calling = safe.calling;
    pending = λ past. absurd (cc);
    quitting = λ waits. absurd (cc);
  }
  Step-Safe reads_wakeup safe = record {
    calling = safe.calling;
    pending = λ past. absurd (cc);
    quitting = λ waits. absurd (cc);
  }
  Step-Safe (handler_queues f) safe =
      rw safe.calling
        (record { calling = refl; pending = λ past. absurd (cc); quitting = λ waits. absurd (cc) })
  Step-Safe handler_quits safe = record {
    calling = safe.calling;
    pending = λ past. absurd (cc);
    quitting = λ waits. absurd (cc);
  }
  Step-Safe takes_functors safe = record {
    calling = refl;
    pending = λ past some_pending. absurd (some_pending refl);
    quitting = λ waits. absurd (cc);
  }
  Step-Safe (functor_queues f) safe = rw safe.calling (record {
    calling = refl;
    pending = λ past some_pending. inl refl;
    quitting = λ waits. absurd (cc);
  })
  Step-Safe functor_quits safe = record {
    calling = safe.calling;
    pending = safe.pending;
    quitting = λ waits. absurd (cc);
  }
  Step-Safe functor_ends safe = record {
    calling = safe.calling;
    pending = safe.pending;
    quitting = λ waits. absurd (cc);
  }
  Step-Safe functors_end safe = record {
    calling = refl;
    pending = safe.pending;
    quitting = λ waits. absurd (cc);
  }
  Step-Safe (goes_on no_quit) safe = record {
    calling = safe.calling;
    pending = safe.pending;
    quitting = λ waits is_quit. absurd (cc);
  }
  Step-Safe (stops is_quit) safe = record {
    calling = safe.calling;
    pending = λ past. absurd (cc);
    quitting = λ waits. absurd (cc);
  }

  Reached-Safe :
      {l : EventLoop K F} {place : Place F} {owed : ℕ} → Reached l place owed → Safe l place owed
  Reached-Safe (starts no_pending no_calls) = record {
    calling = no_calls;
    pending = λ past some_pending. absurd (some_pending no_pending);
    quitting = λ waits. absurd (cc);
  }
  Reached-Safe (steps reached step) = Step-Safe step (Reached-Safe reached)

  -- However the steps of the threads interleave from before the call of `loop`, with nothing pending
  -- there and nothing queued there by the loop's own thread: when the loop's thread waits in a poll
  -- while a functor is pending or `m_quit` is set, the event descriptor is readable, so that the poll
  -- returns, or another thread is to make it so. A `quit` before the call of `loop` does not count,
  -- since the call resets `m_quit`.
  pub no_lost_wakeup :
      (l : EventLoop K F) (owed : ℕ)
      → Reached l polling owed
      → (l.m_pending_functors ≢ []) ⊎ (l.m_quit ≡ true)
      → Alert l owed
  no_lost_wakeup l owed reached (inl some_pending) =
      (Reached-Safe reached).pending refl some_pending
  no_lost_wakeup l owed reached (inr is_quit) = (Reached-Safe reached).quitting refl is_quit
