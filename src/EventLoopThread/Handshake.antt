-- ===== src/EventLoopThread/Handshake.antt =====
-- `startLoop` and `threadFunc` of src/tcp/EventLoopThread.cpp together.
use dwt_src.Prelude.{
  Option-cases, ℕ, suc, ◌+◌, ◌*◌, ◌≤◌, ◌≡◌, refl, ap, Bool, true, false, ◌⊎◌, inl, inr, Option,
  none, some, arith, ◌∙◌, sym,
}
use dwt_src.EventLoopThread.{
  Holder, free, by_starter, by_worker, EventLoopThread, Starter, locking, testing, waiting,
  read_loop, returned, Worker, initialising, binding, bound, notified, looping, leaving, clearing,
  cleared, exited, lock, unlock, bind_loop, clear_loop, notify_one, Step, starter_locks,
  starter_waits, wakes_unnotified, starter_reads, starter_unlocks, worker_locks, worker_binds,
  worker_notifies, worker_unlocks, loop_returns, worker_relocks, worker_clears, worker_ends,
}

abbrev starter_holds : Starter → Bool
starter_holds testing = true
starter_holds (read_loop l) = true
starter_holds locking = false
starter_holds waiting = false
starter_holds (returned l) = false

abbrev worker_holds : Worker → Bool
worker_holds binding = true
worker_holds bound = true
worker_holds notified = true
worker_holds clearing = true
worker_holds cleared = true
worker_holds w = false

abbrev is_starter : Holder → Bool
is_starter by_starter = true
is_starter h = false

abbrev is_worker : Holder → Bool
is_worker by_worker = true
is_worker h = false

-- What `m_loop` is while the thread is there.
abbrev shown_by : ℕ → Worker → Option ℕ
shown_by loop bound = some loop
shown_by loop notified = some loop
shown_by loop looping = some loop
shown_by loop leaving = some loop
shown_by loop clearing = some loop
shown_by loop w = none

abbrev is_waiting : Starter → Bool
is_waiting waiting = true
is_waiting s = false

-- Up to the return of `loop.loop()`.
abbrev pub is_running : Worker → Bool
is_running initialising = true
is_running binding = true
is_running bound = true
is_running notified = true
is_running looping = true
is_running w = false

-- A notification is still to come, or `m_loop` was cleared.
abbrev may_wait : Worker → Bool
may_wait notified = false
may_wait looping = false
may_wait leaving = false
may_wait clearing = false
may_wait w = true

-- How many steps the two threads may take up to the return of `startLoop`.
abbrev starter_rank : Starter → ℕ
starter_rank locking = 4
starter_rank testing = 3
starter_rank waiting = 2
starter_rank (read_loop l) = 1
starter_rank (returned l) = 0

abbrev worker_rank : Worker → ℕ
worker_rank initialising = 12
worker_rank binding = 9
worker_rank bound = 6
worker_rank notified = 3
worker_rank w = 0

abbrev Has : ℕ → Starter → Type 0
Has loop (read_loop l) = l ≡ loop
Has loop (returned l) = l ≡ loop
Has loop s = Bool

module _ (loop : ℕ) where
  -- `n` steps from the start of the thread, `k` of them wakeups without a notification.
  pub data Reached : ℕ → ℕ → EventLoopThread → Starter → Worker → Type 0 where
    starts : Reached 0 0 (record { m_loop = none; m_mutex = free }) locking initialising
    steps :
        {n k i : ℕ} {t t' : EventLoopThread} {s s' : Starter} {w w' : Worker}
        → Reached n k t s w
        → Step loop t s w i t' s' w'
        → Reached (suc n) (i + k) t' s' w'

  record Safe (t : EventLoopThread) (s : Starter) (w : Worker) : Type 0 where
    by_starter_only : is_starter t.m_mutex ≡ starter_holds s
    by_worker_only : is_worker t.m_mutex ≡ worker_holds w
    shown : t.m_loop ≡ shown_by loop w
    has : Has loop s
    waits : is_waiting s ≡ true → may_wait w ≡ true

  hidden-may_wait : (w : Worker) → none ≡ shown_by loop w → may_wait w ≡ true
  hidden-may_wait initialising e = refl
  hidden-may_wait binding e = refl
  hidden-may_wait cleared e = refl
  hidden-may_wait exited e = refl
  hidden-may_wait bound e = cc
  hidden-may_wait notified e = cc
  hidden-may_wait looping e = cc
  hidden-may_wait leaving e = cc
  hidden-may_wait clearing e = cc

  shown-loop : (w : Worker) (l : ℕ) → some l ≡ shown_by loop w → l ≡ loop
  shown-loop initialising l e = cc
  shown-loop binding l e = cc
  shown-loop cleared l e = cc
  shown-loop exited l e = cc
  shown-loop bound l e = cc
  shown-loop notified l e = cc
  shown-loop looping l e = cc
  shown-loop leaving l e = cc
  shown-loop clearing l e = cc

  not_both : (h : Holder) → is_starter h ≡ true → is_worker h ≡ false
  not_both free e = cc
  not_both by_starter e = refl
  not_both by_worker e = cc

  not_both' : (h : Holder) → is_worker h ≡ true → is_starter h ≡ false
  not_both' free e = cc
  not_both' by_starter e = cc
  not_both' by_worker e = refl

  notified-Has : (s : Starter) → Has loop s → Has loop (notify_one s)
  unfolding notify_one
  notified-Has locking has = true
  notified-Has testing has = true
  notified-Has waiting has = true
  notified-Has (read_loop l) has = has
  notified-Has (returned l) has = has

  notified-holds : (s : Starter) → starter_holds (notify_one s) ≡ starter_holds s
  unfolding notify_one
  notified-holds locking = refl
  notified-holds testing = refl
  notified-holds waiting = refl
  notified-holds (read_loop l) = refl
  notified-holds (returned l) = refl

  notified-waits : (s : Starter) → is_waiting (notify_one s) ≡ false
  unfolding notify_one
  notified-waits locking = refl
  notified-waits testing = refl
  notified-waits waiting = refl
  notified-waits (read_loop l) = refl
  notified-waits (returned l) = refl

  Step-Safe :
      {k : ℕ} {t t' : EventLoopThread} {s s' : Starter} {w w' : Worker}
      → Step loop t s w k t' s' w'
      → Safe t s w
      → Safe t' s' w'
  unfolding lock unlock bind_loop clear_loop
  Step-Safe (starter_locks is_free) safe = record {
    by_starter_only = refl;
    by_worker_only = cc;
    shown = safe.shown;
    has = true;
    waits = λ e. cc;
  }
  Step-Safe {w = w} (starter_waits no_loop) safe = record {
    by_starter_only = refl;
    by_worker_only = sym (not_both _ safe.by_starter_only) ∙ safe.by_worker_only;
    shown = safe.shown;
    has = true;
    waits = λ e. hidden-may_wait w (sym no_loop ∙ safe.shown);
  }
  Step-Safe wakes_unnotified safe = record {
    by_starter_only = safe.by_starter_only;
    by_worker_only = safe.by_worker_only;
    shown = safe.shown;
    has = true;
    waits = λ e. cc;
  }
  Step-Safe {w = w} (starter_reads {l = l} some_loop) safe = record {
    by_starter_only = safe.by_starter_only;
    by_worker_only = safe.by_worker_only;
    shown = safe.shown;
    has = shown-loop w l (sym some_loop ∙ safe.shown);
    waits = λ e. cc;
  }
  Step-Safe starter_unlocks safe = record {
    by_starter_only = refl;
    by_worker_only = sym (not_both _ safe.by_starter_only) ∙ safe.by_worker_only;
    shown = safe.shown;
    has = safe.has;
    waits = λ e. cc;
  }
  Step-Safe (worker_locks is_free) safe = record {
    by_starter_only = cc;
    by_worker_only = refl;
    shown = safe.shown;
    has = safe.has;
    waits = λ e. refl;
  }
  Step-Safe worker_binds safe = record {
    by_starter_only = safe.by_starter_only;
    by_worker_only = safe.by_worker_only;
    shown = refl;
    has = safe.has;
    waits = λ e. refl;
  }
  Step-Safe {s = s} worker_notifies safe = record {
    by_starter_only = safe.by_starter_only ∙ sym (notified-holds s);
    by_worker_only = safe.by_worker_only;
    shown = safe.shown;
    has = notified-Has s safe.has;
    waits = λ e. sym (notified-waits s) ∙ e;
  }
  Step-Safe worker_unlocks safe = record {
    by_starter_only = sym (not_both' _ safe.by_worker_only) ∙ safe.by_starter_only;
    by_worker_only = refl;
    shown = safe.shown;
    has = safe.has;
    waits = safe.waits;
  }
  Step-Safe loop_returns safe = record {
    by_starter_only = safe.by_starter_only;
    by_worker_only = safe.by_worker_only;
    shown = safe.shown;
    has = safe.has;
    waits = safe.waits;
  }
  Step-Safe (worker_relocks is_free) safe = record {
    by_starter_only = cc;
    by_worker_only = refl;
    shown = safe.shown;
    has = safe.has;
    waits = safe.waits;
  }
  Step-Safe worker_clears safe = record {
    by_starter_only = safe.by_starter_only;
    by_worker_only = safe.by_worker_only;
    shown = refl;
    has = safe.has;
    waits = λ e. refl;
  }
  Step-Safe worker_ends safe = record {
    by_starter_only = sym (not_both' _ safe.by_worker_only) ∙ safe.by_starter_only;
    by_worker_only = refl;
    shown = safe.shown;
    has = safe.has;
    waits = λ e. refl;
  }

  Reached-Safe :
      {n k : ℕ} {t : EventLoopThread} {s : Starter} {w : Worker} → Reached n k t s w → Safe t s w
  Reached-Safe starts = record {
    by_starter_only = refl;
    by_worker_only = refl;
    shown = refl;
    has = true;
    waits = λ e. refl;
  }
  Reached-Safe (steps reached step) = Step-Safe step (Reached-Safe reached)

  notified-rank : (s : Starter) → starter_rank (notify_one s) ≤ starter_rank s + 2
  unfolding notify_one
  notified-rank locking = omega arith
  notified-rank testing = omega arith
  notified-rank waiting = omega arith
  notified-rank (read_loop l) = omega arith
  notified-rank (returned l) = omega arith

  -- Up to the return of the thread's loop, a step lowers the rank, save a wakeup without a
  -- notification, which raises it by 2.
  Step-rank :
      {i : ℕ} {t t' : EventLoopThread} {s s' : Starter} {w w' : Worker}
      → Step loop t s w i t' s' w'
      → is_running w' ≡ true
      → (suc (starter_rank s' + worker_rank w') ≤ starter_rank s + worker_rank w + 3 * i)
        × (is_running w ≡ true)
  Step-rank (starter_locks is_free) runs = (omega arith, runs)
  Step-rank (starter_waits no_loop) runs = (omega arith, runs)
  Step-rank wakes_unnotified runs = (omega arith, runs)
  Step-rank (starter_reads some_loop) runs = (omega arith, runs)
  Step-rank starter_unlocks runs = (omega arith, runs)
  Step-rank (worker_locks is_free) runs = (omega arith, refl)
  Step-rank worker_binds runs = (omega arith, refl)
  Step-rank {s = s} worker_notifies runs = let bounded = notified-rank s in (omega arith, refl)
  Step-rank worker_unlocks runs = (omega arith, refl)
  Step-rank loop_returns runs = cc
  Step-rank (worker_relocks is_free) runs = cc
  Step-rank worker_clears runs = cc
  Step-rank worker_ends runs = cc

  Reached-rank :
      {n k : ℕ} {t : EventLoopThread} {s : Starter} {w : Worker}
      → Reached n k t s w
      → is_running w ≡ true
      → n + (starter_rank s + worker_rank w) ≤ 16 + 3 * k
  Reached-rank starts runs = omega arith
  Reached-rank (steps reached step) runs =
      let (lowered, ran) = Step-rank step runs in
      let before = Reached-rank reached ran in omega arith

  -- A step other than a wakeup without a notification, after which the thread's loop still runs.
  abbrev pub CanStep : EventLoopThread → Starter → Worker → Type 0
  CanStep t s w =
      (t' : EventLoopThread) × (s' : Starter) × (w' : Worker) × (Step loop t s w 0 t' s' w')
      × (is_running w' ≡ true)

  no_holder : (h : Holder) → is_starter h ≡ false → is_worker h ≡ false → h ≡ free
  no_holder free p q = refl
  no_holder by_starter p q = cc
  no_holder by_worker p q = cc

  waiting-CanStep :
      (t : EventLoopThread) (w : Worker)
      → Safe t waiting w
      → is_running w ≡ true
      → CanStep t waiting w
  waiting-CanStep t initialising safe runs =
      (_, _, _, worker_locks (no_holder _ safe.by_starter_only safe.by_worker_only), refl)
  waiting-CanStep t binding safe runs = (_, _, _, worker_binds, refl)
  waiting-CanStep t bound safe runs = (_, _, _, worker_notifies, refl)
  waiting-CanStep t notified safe runs = absurd (let e = safe.waits refl in cc)
  waiting-CanStep t looping safe runs = absurd (let e = safe.waits refl in cc)
  waiting-CanStep t leaving safe runs = cc
  waiting-CanStep t clearing safe runs = cc
  waiting-CanStep t cleared safe runs = cc
  waiting-CanStep t exited safe runs = cc

  locking-CanStep :
      (t : EventLoopThread) (w : Worker)
      → Safe t locking w
      → is_running w ≡ true
      → CanStep t locking w
  locking-CanStep t initialising safe runs =
      (_, _, _, starter_locks (no_holder _ safe.by_starter_only safe.by_worker_only), refl)
  locking-CanStep t binding safe runs = (_, _, _, worker_binds, refl)
  locking-CanStep t bound safe runs = (_, _, _, worker_notifies, refl)
  locking-CanStep t notified safe runs = (_, _, _, worker_unlocks, refl)
  locking-CanStep t looping safe runs =
      (_, _, _, starter_locks (no_holder _ safe.by_starter_only safe.by_worker_only), refl)
  locking-CanStep t leaving safe runs = cc
  locking-CanStep t clearing safe runs = cc
  locking-CanStep t cleared safe runs = cc
  locking-CanStep t exited safe runs = cc

  Safe-CanStep :
      (t : EventLoopThread) (s : Starter) (w : Worker)
      → Safe t s w
      → is_running w ≡ true
      → (s ≡ returned loop) ⊎ (CanStep t s w)
  Safe-CanStep t locking w safe runs = inr (locking-CanStep t w safe runs)
  Safe-CanStep t waiting w safe runs = inr (waiting-CanStep t w safe runs)
  Safe-CanStep t testing w safe runs = elim (Option-cases t.m_loop) [
    | inl no_loop ↦ inr (_, _, _, starter_waits no_loop, runs)
    | inr (l, some_loop) ↦ inr (_, _, _, starter_reads some_loop, runs)
  ]
  Safe-CanStep t (read_loop l) w safe runs = inr (_, _, _, starter_unlocks, runs)
  Safe-CanStep t (returned l) w safe runs = inl (ap returned safe.has)

  -- However the steps of `startLoop` and `threadFunc` interleave while the loop of the thread has
  -- not returned, there are at most 16 of them, and 3 more for each wakeup of the wait without a
  -- notification; and as long as `startLoop` has not returned the loop of the thread, a step other
  -- than such a wakeup can be taken before the loop returns.
  pub start_loop_lem :
      (n k : ℕ) (t : EventLoopThread) (s : Starter) (w : Worker)
      → Reached n k t s w
      → is_running w ≡ true
      → (n ≤ 16 + 3 * k) × ((s ≡ returned loop) ⊎ (CanStep t s w))
  start_loop_lem n k t s w reached runs =
      let bounded = Reached-rank reached runs in
      (omega arith, Safe-CanStep t s w (Reached-Safe reached) runs)

  -- However the steps interleave, also after the loop of the thread has returned, what `startLoop`
  -- returns is the loop of the thread, never a null pointer.
  returned_loop_lem :
      (n k : ℕ) (t : EventLoopThread) (w : Worker) (l : ℕ) → Reached n k t (returned l) w → l ≡ loop
  returned_loop_lem n k t w l reached = (Reached-Safe reached).has
