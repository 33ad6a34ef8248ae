-- ===== src/Channel.antt =====
-- src/tcp/Channel.h and src/tcp/Channel.cpp: a file descriptor, the events that it waits for and
-- those that happened. An event mask is a record with one flag for each bit that the code names; the
-- callbacks act on a state `W` of the caller's.
use dwt_src.Prelude.{
  ℕ, Bool, true, false, not, ◌&&◌, ◌||◌, Option, none, some, if◌then◌else◌, Outcome, ok, ◌>>=◌,
}

-- The bits of the masks of `epoll`.
pub record Events : Type 0 where
  pub epollin : Bool
  pub epollpri : Bool
  pub epollout : Bool
  pub epollerr : Bool
  pub epollhup : Bool

abbrev pub none_event : Events
none_event = record {
  epollin = false;
  epollpri = false;
  epollout = false;
  epollerr = false;
  epollhup = false;
}

abbrev pub read_event : Events
read_event = record none_event { epollin = true; epollpri = true }

abbrev pub write_event : Events
write_event = record none_event { epollout = true }

-- `a | b`
abbrev pub union : Events → Events → Events
union a b = record {
  epollin = a.epollin || b.epollin;
  epollpri = a.epollpri || b.epollpri;
  epollout = a.epollout || b.epollout;
  epollerr = a.epollerr || b.epollerr;
  epollhup = a.epollhup || b.epollhup;
}

-- `a & ~ b`
abbrev pub without : Events → Events → Events
without a b = record {
  epollin = a.epollin && not b.epollin;
  epollpri = a.epollpri && not b.epollpri;
  epollout = a.epollout && not b.epollout;
  epollerr = a.epollerr && not b.epollerr;
  epollhup = a.epollhup && not b.epollhup;
}

-- `a & b` as a test
abbrev pub meets : Events → Events → Bool
meets a b =
    (a.epollin && b.epollin)
    || (a.epollpri && b.epollpri)
    || (a.epollout && b.epollout)
    || (a.epollerr && b.epollerr)
    || (a.epollhup && b.epollhup)

-- The values that `m_index` takes: -1, 1 and 2.
pub data ChannelIndex : Type 0 where
  k_new k_added k_deleted : ChannelIndex

-- `address` is the channel's own, as the system and the poller's map keep it; `m_tied` and the
-- callbacks are those of the connection that owns the channel.
pub record Channel : Type 0 where
  pub address : ℕ
  pub m_fd : ℕ
  pub m_events : Events
  pub m_revents : Events
  pub m_index : ChannelIndex
  pub m_tied : Bool

unfoldable pub new_channel : ℕ → ℕ → Channel
new_channel address fd = record {
  address = address;
  m_fd = fd;
  m_events = none_event;
  m_revents = none_event;
  m_index = k_new;
  m_tied = false;
}

unfoldable pub tie : Channel → Channel
tie c = record c { m_tied = true }

unfoldable pub set_revents : Events → Channel → Channel
set_revents revents c = record c { m_revents = revents }

-- `m_events == kNoneEvent`
unfoldable pub is_none_event : Channel → Bool
is_none_event c = not (
    c.m_events.epollin || c.m_events.epollpri || c.m_events.epollout || c.m_events.epollerr
    || c.m_events.epollhup)

unfoldable pub is_writing : Channel → Bool
is_writing c = meets c.m_events write_event

unfoldable pub is_reading : Channel → Bool
is_reading c = meets c.m_events read_event

-- The four callbacks, each of which may be unset.
pub record ChannelCallbacks {ℓ} (W : Type ℓ) : Type ℓ where
  pub m_read_callback : Option (W → Outcome W)
  pub m_write_callback : Option (W → Outcome W)
  pub m_close_callback : Option (W → Outcome W)
  pub m_error_callback : Option (W → Outcome W)

-- A callback, when the test of its events holds and it is set.
abbrev pub call_if {ℓ} : {W : Type ℓ} → Bool → Option (W → Outcome W) → W → Outcome W
call_if false callback w = ok w
call_if true none w = ok w
call_if true (some callback) w = callback w

unfoldable pub handle_event_with_guard {ℓ} :
    {W : Type ℓ} → ChannelCallbacks W → Events → W → Outcome W
handle_event_with_guard callbacks happened w = do
  closed ← call_if (happened.epollhup && not happened.epollin) callbacks.m_close_callback w
  failed ← call_if happened.epollerr callbacks.m_error_callback closed
  read ← call_if (happened.epollin || happened.epollpri) callbacks.m_read_callback failed
  call_if happened.epollout callbacks.m_write_callback read

-- `handleEvent`; `owner_lives` is what `m_tie.lock()` finds.
unfoldable pub handle_event {ℓ} : {W : Type ℓ} → ChannelCallbacks W → Bool → Channel → W → Outcome W
unfolding handle_event_with_guard
handle_event callbacks owner_lives c w =
    if c.m_tied && not owner_lives then ok w else handle_event_with_guard callbacks c.m_revents w
