-- ===== src/EventLoop.antt =====
-- src/tcp/EventLoop.h and src/tcp/EventLoop.cpp, with the operations of src/tcp/Channel.cpp that go
-- through the loop to its poller. `F` are the functors, `K` the system's state behind the poller.
pub mod Channels
pub mod Wakeups
pub mod Pending
use dwt_src.Prelude.{
  ℕ, Bool, true, false, not, ◌&&◌, ◌||◌, Option, none, some, List, [], ◌∷◌, ◌++◌, if◌then◌else◌,
  Outcome, ok, out_of_fuel, ◌>>=◌,
}
use dwt_src.Channel.{Channel, none_event, read_event, write_event, union, without, new_channel}
use dwt_src.EpollPoller.{Epoll, EpollPoller}

-- `wakeup_readable`: the event descriptor was written since it was last read, so that it is readable.
pub record EventLoop (K F : Type 0) : Type 0 where
  pub m_looping : Bool
  pub m_quit : Bool
  pub m_calling_pending_functors : Bool
  pub m_poller : EpollPoller K
  pub m_pending_functors : List F
  pub wakeup_readable : Bool

module _ {K F : Type 0} where
  unfoldable pub wakeup : EventLoop K F → EventLoop K F
  wakeup l = record l { wakeup_readable = true }

  -- The read of the event descriptor, by the callback of its channel.
  unfoldable pub handle_read : EventLoop K F → EventLoop K F
  handle_read l = record l { wakeup_readable = false }

  -- The first part of `queueInLoop`, under the lock.
  unfoldable pub push_functor : F → EventLoop K F → EventLoop K F
  push_functor f l = record l { m_pending_functors = l.m_pending_functors ++ (f ∷ []) }

  -- `queueInLoop`, called from the loop's own thread or from another one.
  unfoldable pub queue_in_loop : Bool → F → EventLoop K F → EventLoop K F
  unfolding push_functor wakeup
  queue_in_loop is_in_loop_thread f l =
      let pushed = push_functor f l in
      if not is_in_loop_thread || l.m_calling_pending_functors then wakeup pushed else pushed

  -- The first part of `quit`.
  unfoldable pub set_quit : EventLoop K F → EventLoop K F
  set_quit l = record l { m_quit = true }

  unfoldable pub quit : Bool → EventLoop K F → EventLoop K F
  unfolding set_quit wakeup
  quit is_in_loop_thread l = if is_in_loop_thread then set_quit l else wakeup (set_quit l)

  -- The start of `doPendingFunctors`, up to the end of the lock: the functors, and the loop without them.
  unfoldable pub swap_functors : EventLoop K F → List F × EventLoop K F
  swap_functors l = (
    l.m_pending_functors,
    record l { m_calling_pending_functors = true; m_pending_functors = [] },
  )

  unfoldable pub end_functors : EventLoop K F → EventLoop K F
  end_functors l = record l { m_calling_pending_functors = false }

-- What functors and handlers act on: the loop, and the rest `W` of the program.
module _ {K F W : Type 0} (call : F → EventLoop K F × W → Outcome (EventLoop K F × W)) where
  unfoldable pub run_in_loop : Bool → F → EventLoop K F × W → Outcome (EventLoop K F × W)
  run_in_loop true f s = call f s
  run_in_loop false f (l, w) = ok (queue_in_loop false f l, w)

  unfoldable pub call_all : List F → EventLoop K F × W → Outcome (EventLoop K F × W)
  call_all [] s = ok s
  call_all (f ∷ funcs) s = do s' ← call f s; call_all funcs s'

  unfoldable pub do_pending_functors : EventLoop K F × W → Outcome (EventLoop K F × W)
  unfolding swap_functors call_all end_functors
  do_pending_functors (l, w) =
      let (funcs, swapped) = swap_functors l in
      do (l', w') ← call_all funcs (swapped, w); ok (end_functors l', w')

-- The operations of a channel, through the loop to its poller.
module _ {K F : Type 0} (system : Epoll K) where
  unfoldable pub update_channel : Channel → EventLoop K F → Outcome (Channel × EventLoop K F)
  update_channel c l = do
    (c', p) ← dwt_src.EpollPoller.update_channel system c l.m_poller
    ok (c', record l { m_poller = p })

  unfoldable pub remove_channel : Channel → EventLoop K F → Outcome (Channel × EventLoop K F)
  remove_channel c l = do
    (c', p) ← dwt_src.EpollPoller.remove_channel system c l.m_poller
    ok (c', record l { m_poller = p })

  unfoldable pub has_channel : Channel → EventLoop K F → Bool
  has_channel c l = dwt_src.EpollPoller.has_channel c l.m_poller

  unfoldable pub enable_reading : Channel → EventLoop K F → Outcome (Channel × EventLoop K F)
  unfolding update_channel
  enable_reading c l = update_channel (record c { m_events = union c.m_events read_event }) l

  unfoldable pub disable_reading : Channel → EventLoop K F → Outcome (Channel × EventLoop K F)
  unfolding update_channel
  disable_reading c l = update_channel (record c { m_events = without c.m_events read_event }) l

  unfoldable pub enable_writing : Channel → EventLoop K F → Outcome (Channel × EventLoop K F)
  unfolding update_channel
  enable_writing c l = update_channel (record c { m_events = union c.m_events write_event }) l

  unfoldable pub disable_writing : Channel → EventLoop K F → Outcome (Channel × EventLoop K F)
  unfolding update_channel
  disable_writing c l = update_channel (record c { m_events = without c.m_events write_event }) l

  unfoldable pub disable_all : Channel → EventLoop K F → Outcome (Channel × EventLoop K F)
  unfolding update_channel
  disable_all c l = update_channel (record c { m_events = none_event }) l

  -- The constructor: the channel of the event descriptor `wakeup_fd` is watched for reading. Its check
  -- for another loop of the thread is left out.
  unfoldable pub init : K → ℕ → ℕ → Outcome (Channel × EventLoop K F)
  unfolding enable_reading
  init kernel address wakeup_fd = enable_reading (new_channel address wakeup_fd) (record {
    m_looping = false;
    m_quit = false;
    m_calling_pending_functors = false;
    m_poller = dwt_src.EpollPoller.init kernel;
    m_pending_functors = [];
    wakeup_readable = false;
  })

  -- The destructor, on the channel of the event descriptor.
  unfoldable pub destroy_loop : Channel → EventLoop K F → Outcome (Channel × EventLoop K F)
  unfolding disable_all remove_channel
  destroy_loop c l = do (disabled, l') ← disable_all c l; remove_channel disabled l'

-- The start of `loop`, which forgets a `quit` before it.
unfoldable pub start_looping : {K F : Type 0} → EventLoop K F → EventLoop K F
start_looping l = record l { m_looping = true; m_quit = false }

-- `loop`: `rounds` are the lists of the handlers of the active channels that the successive polls give;
-- when they are used up before `quit`, the loop waits in a poll for ever.
module _ {K F W H : Type 0} (call : F → EventLoop K F × W → Outcome (EventLoop K F × W))
    (handle_event : H → EventLoop K F × W → Outcome (EventLoop K F × W)) where
  unfoldable pub handle_all : List H → EventLoop K F × W → Outcome (EventLoop K F × W)
  handle_all [] s = ok s
  handle_all (active ∷ actives) s = do s' ← handle_event active s; handle_all actives s'

  unfoldable pub loop_rounds : List (List H) → EventLoop K F × W → Outcome (EventLoop K F × W)
  unfolding handle_all
  loop_rounds [] (l, w) = if l.m_quit then ok (l, w) else out_of_fuel
  loop_rounds (actives ∷ rounds) (l, w) =
      let round : Outcome (EventLoop K F × W) = do
        s ← handle_all actives (l, w)
        s' ← do_pending_functors call s
        loop_rounds rounds s'
      in if l.m_quit then ok (l, w) else round

  unfoldable pub loop : List (List H) → EventLoop K F × W → Outcome (EventLoop K F × W)
  unfolding loop_rounds
  loop rounds (l, w) = do
    (l', w') ← loop_rounds rounds (start_looping l, w)
    ok (record l' { m_looping = false }, w')
