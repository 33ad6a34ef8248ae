-- ===== src/Tests/Loops.antt =====
-- The pollers and the loops at concrete inputs.
use dwt_src.Prelude.{
  ℕ, zero, suc, ◌+◌, ◌<◌, ◌≡◌, ◌≢◌, inl, refl, Bool, true, false, Option, none, some, List, [], ◌∷◌,
  arith, ◌==◌, if◌then◌else◌, Outcome, ok, Returns, returns,
}
use dwt_src.Channel.{Events, Channel, set_revents, k_added, read_event, none_event, write_event}
use dwt_src.EpollPoller.{Epoll, EpollOperation, ctl_add, ctl_mod, ctl_del, map_at}
use dwt_src.EpollPoller.Polling.{poll, last_revents, poll_lem}
use dwt_src.EpollPoller.Registration.{IsPlaced}
use dwt_src.EventLoop.{EventLoop, queue_in_loop, push_functor, wakeup, do_pending_functors}
use dwt_src.EventLoop.Pending.{Uses, nothing, queues, do_pending_functors_lem}
use dwt_src.EventLoop.Wakeups.{
  Reached, starts, starts_looping, steps, polling, goes_on, other_pushes, other_wakes, Alert,
  no_lost_wakeup,
}
use dwt_src.EventLoop.Channels.{
  Moved, make, enables_writing, index_after, events_after, channel_call_lem,
}
use dwt_src.TcpConnection.{Functor}

abbrev pub Watches : Type 0
Watches = ℕ → Option (ℕ × Events)

abbrev pub watch_at : ℕ → Option (ℕ × Events) → Watches → Watches
watch_at fd entry k other = if other == fd then entry else k other

abbrev pub ctl_on : Option (ℕ × Events) → EpollOperation → ℕ → ℕ → Events → Watches → Watches × Bool
ctl_on none ctl_add fd pointer events k = (watch_at fd (some (pointer, events)) k, true)
ctl_on none ctl_mod fd pointer events k = (k, false)
ctl_on none ctl_del fd pointer events k = (k, false)
ctl_on (some old) ctl_add fd pointer events k = (k, false)
ctl_on (some old) ctl_mod fd pointer events k = (watch_at fd (some (pointer, events)) k, true)
ctl_on (some old) ctl_del fd pointer events k = (watch_at fd none k, true)

pub watch_at-same :
    (fd : ℕ) (entry : Option (ℕ × Events)) (k : Watches) → watch_at fd entry k fd ≡ entry
watch_at-same fd entry k = let same : (fd == fd) ≡ true = ground arith in rw same refl

pub watch_at-other :
    (fd : ℕ) (entry : Option (ℕ × Events)) (k : Watches) (other : ℕ)
    → other ≢ fd
    → watch_at fd entry k other ≡ k other
watch_at-other fd entry k other differs =
    let no_hit : (other == fd) ≡ false = ground arith in rw no_hit refl

pub ctl_on-other :
    (old : Option (ℕ × Events)) (operation : EpollOperation) (fd pointer : ℕ) (events : Events)
    (k : Watches) (other : ℕ)
    → other ≢ fd
    → (ctl_on old operation fd pointer events k).0 other ≡ k other
ctl_on-other none ctl_add fd pointer events k other differs = watch_at-other fd _ k other differs
ctl_on-other none ctl_mod fd pointer events k other differs = refl
ctl_on-other none ctl_del fd pointer events k other differs = refl
ctl_on-other (some old) ctl_add fd pointer events k other differs = refl
ctl_on-other (some old) ctl_mod fd pointer events k other differs =
    watch_at-other fd _ k other differs
ctl_on-other (some old) ctl_del fd pointer events k other differs =
    watch_at-other fd _ k other differs

-- A system whose set of watches is a function.
abbrev pub watching : Epoll Watches
watching = record {
  epoll_ctl = λ operation fd pointer events k. ctl_on (k fd) operation fd pointer events k;
  watched = λ k fd. k fd;
  adds = λ fd pointer events k e. rw e (refl, watch_at-same fd _ k);
  modifies = λ fd pointer events k old e. rw e (refl, watch_at-same fd _ k);
  deletes = λ fd pointer events k old e. rw e (refl, watch_at-same fd _ k);
  spares = λ operation fd pointer events k other differs.
      ctl_on-other (k fd) operation fd pointer events k other differs;
}

-- A loop of which nothing is watched or mapped, and a connection that is connected in it.
abbrev pub idle : EventLoop Watches Functor
idle = record {
  m_looping = true;
  m_quit = false;
  m_calling_pending_functors = false;
  m_poller = record { m_channels = λ fd. none; kernel = λ fd. none; m_events_size = 16 };
  m_pending_functors = [];
  wakeup_readable = false;
}

abbrev pub wired : Channel
wired = record {
  address = 200;
  m_fd = 7;
  m_events = read_event;
  m_revents = none_event;
  m_index = k_added;
  m_tied = true;
}

abbrev pub serving : EventLoop Watches Functor
serving = record idle {
  m_poller = record {
    m_channels = map_at 7 (some 200) (λ fd. none);
    kernel = watch_at 7 (some (200, read_event)) (λ fd. none);
    m_events_size = 16;
  };
}

pub wired-IsPlaced : IsPlaced watching wired serving.m_poller
wired-IsPlaced = record { watch = refl; entry = refl }

channel_call_lem_example :
    Returns
      (λ (c', l').
        Moved watching wired serving
          (index_after enables_writing wired)
          (events_after enables_writing read_event)
          c'
          l')
      (make watching enables_writing wired serving)
channel_call_lem_example = channel_call_lem watching enables_writing wired serving wired-IsPlaced

-- Functors that queue smaller ones.
abbrev smaller : ℕ → List ℕ
smaller zero = []
smaller (suc n) = n ∷ []

abbrev queue_smaller : ℕ → EventLoop Watches ℕ × ℕ → Outcome (EventLoop Watches ℕ × ℕ)
queue_smaller zero (l, w) = ok (l, suc w)
queue_smaller (suc n) (l, w) = ok (queue_in_loop true n l, suc w)

queue_smaller-Uses :
    (f : ℕ) (l : EventLoop Watches ℕ) (w : ℕ)
    → Returns (λ (l', w'). Uses (smaller f) l l') (queue_smaller f (l, w))
queue_smaller-Uses zero l w = returns nothing
queue_smaller-Uses (suc n) l w = returns (queues n nothing)

abbrev queued : EventLoop Watches ℕ
queued = record {
  m_looping = true;
  m_quit = false;
  m_calling_pending_functors = false;
  m_poller = idle.m_poller;
  m_pending_functors = 3 ∷ 0 ∷ 1 ∷ [];
  wakeup_readable = false;
}

do_pending_functors_lem_example :
    Returns
      (λ (l', w').
        (l'.m_pending_functors ≡ 2 ∷ 0 ∷ [])
        × (l'.m_calling_pending_functors ≡ false)
        × (l'.m_pending_functors ≢ [] → l'.wakeup_readable ≡ true))
      (do_pending_functors queue_smaller (queued, 0))
do_pending_functors_lem_example =
    do_pending_functors_lem queue_smaller smaller queued 0 queue_smaller-Uses

-- Another thread queues a functor while the loop's thread goes from a round into a poll.
abbrev fresh : EventLoop Watches ℕ
fresh = record queued { m_pending_functors = [] }

woken-Reached : Reached (wakeup (push_functor 5 fresh)) polling 0
unfolding push_functor wakeup dwt_src.EventLoop.start_looping
woken-Reached =
    steps
      (steps (steps (steps (starts {l = fresh} refl refl) starts_looping) (goes_on refl))
        (other_pushes 5))
      other_wakes

no_lost_wakeup_example : Alert (wakeup (push_functor 5 fresh)) 0
unfolding push_functor wakeup
no_lost_wakeup_example =
    no_lost_wakeup (wakeup (push_functor 5 fresh)) 0 woken-Reached (inl (λ e. cc))

abbrev board : ℕ → Channel
board address = record wired { address = address; m_fd = address + 1 }

poll_lem_example :
    Returns
      (λ (p', (channels', active')).
        (active' ≡ 4 ∷ 9 ∷ [])
        × ((address : ℕ)
            → channels' address
              ≡ set_revents
                  (last_revents address ((4, read_event) ∷ (9, write_event) ∷ []) none_event)
                  (board address))
        × (2 < p'.m_events_size))
      (poll
        (some ((4, read_event) ∷ (9, write_event) ∷ []))
        board
        []
        (record idle.m_poller { m_events_size = 2 }))
poll_lem_example =
    poll_lem ((4, read_event) ∷ (9, write_event) ∷ []) board []
      (record idle.m_poller { m_events_size = 2 }) (omega arith) (omega arith)
