-- ===== src/EventLoopThread.antt =====
-- src/tcp/EventLoopThread.cpp: the thread that calls `startLoop` and the new thread, in `threadFunc`,
-- as steps on the mutex, the condition variable and `m_loop`. A loop is a number.
pub mod Handshake
use dwt_src.Prelude.{ℕ, ◌≡◌, Option, none, some}

pub data Holder : Type 0 where
  free by_starter by_worker : Holder

pub record EventLoopThread : Type 0 where
  pub m_loop : Option ℕ
  pub m_mutex : Holder

-- Where `startLoop` is after it started the thread: before the lock, at the test of `while`, in the
-- wait, with the loop that it read, behind the lock. A wait that was woken is before the lock.
pub data Starter : Type 0 where
  locking testing waiting : Starter
  read_loop returned : ℕ → Starter

-- Where `threadFunc` is: up to the lock, with the lock, after the assignment, after the
-- notification, in `loop.loop()`, behind it, with the lock again, after the assignment, at the end.
pub data Worker : Type 0 where
  initialising binding bound notified looping leaving clearing cleared exited : Worker

unfoldable pub lock : Holder → EventLoopThread → EventLoopThread
lock holder t = record t { m_mutex = holder }

unfoldable pub unlock : EventLoopThread → EventLoopThread
unlock t = record t { m_mutex = free }

unfoldable pub bind_loop : ℕ → EventLoopThread → EventLoopThread
bind_loop loop t = record t { m_loop = some loop }

unfoldable pub clear_loop : EventLoopThread → EventLoopThread
clear_loop t = record t { m_loop = none }

-- `notify_one` wakes the thread that waits.
unfoldable pub notify_one : Starter → Starter
notify_one waiting = locking
notify_one locking = locking
notify_one testing = testing
notify_one (read_loop l) = read_loop l
notify_one (returned l) = returned l

-- The steps of both threads, for the loop of `threadFunc`; the number counts the wakeups of the
-- wait without a notification.
pub data Step (loop : ℕ)
    : EventLoopThread → Starter → Worker → ℕ → EventLoopThread → Starter → Worker → Type 0 where
  starter_locks :
      {t : EventLoopThread} {w : Worker}
      → t.m_mutex ≡ free
      → Step loop t locking w 0 (lock by_starter t) testing w
  starter_waits :
      {t : EventLoopThread} {w : Worker}
      → t.m_loop ≡ none
      → Step loop t testing w 0 (unlock t) waiting w
  wakes_unnotified : {t : EventLoopThread} {w : Worker} → Step loop t waiting w 1 t locking w
  starter_reads :
      {t : EventLoopThread} {w : Worker} {l : ℕ}
      → t.m_loop ≡ some l
      → Step loop t testing w 0 t (read_loop l) w
  starter_unlocks :
      {t : EventLoopThread} {w : Worker} {l : ℕ}
      → Step loop t (read_loop l) w 0 (unlock t) (returned l) w
  worker_locks :
      {t : EventLoopThread} {s : Starter}
      → t.m_mutex ≡ free
      → Step loop t s initialising 0 (lock by_worker t) s binding
  worker_binds :
      {t : EventLoopThread} {s : Starter} → Step loop t s binding 0 (bind_loop loop t) s bound
  worker_notifies :
      {t : EventLoopThread} {s : Starter} → Step loop t s bound 0 t (notify_one s) notified
  worker_unlocks :
      {t : EventLoopThread} {s : Starter} → Step loop t s notified 0 (unlock t) s looping
  loop_returns : {t : EventLoopThread} {s : Starter} → Step loop t s looping 0 t s leaving
  worker_relocks :
      {t : EventLoopThread} {s : Starter}
      → t.m_mutex ≡ free
      → Step loop t s leaving 0 (lock by_worker t) s clearing
  worker_clears :
      {t : EventLoopThread} {s : Starter} → Step loop t s clearing 0 (clear_loop t) s cleared
  worker_ends : {t : EventLoopThread} {s : Starter} → Step loop t s cleared 0 (unlock t) s exited
