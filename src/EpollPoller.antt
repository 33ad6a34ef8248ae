-- ===== src/EpollPoller.antt =====
-- src/tcp/Poller.h, src/tcp/Poller.cpp, src/tcp/EpollPoller.h and src/tcp/EpollPoller.cpp: the map of
-- channels and the system's set of watched file descriptors. A call that the code answers with
-- `LOG_FATAL`, which ends the process, is a fault.
pub mod Polling
pub mod Registration
use dwt_src.Prelude.{
  ℕ, ◌≡◌, ◌≢◌, Bool, true, false, ◌&&◌, ◌||◌, Option, none, some, ◌==◌, if◌then◌else◌, Outcome, ok,
  fault, ◌>>=◌,
}
use dwt_src.Channel.{Events, Channel, ChannelIndex, k_new, k_added, k_deleted, is_none_event}

pub data EpollOperation : Type 0 where
  ctl_add ctl_mod ctl_del : EpollOperation

-- The system's side: a set of watched file descriptors in a state `K`, each with the pointer and the
-- events that it was registered with. `epoll_ctl` returns whether it succeeded; as documented, one
-- adds what is not watched, and changes or deletes what is, and no call touches another descriptor.
-- (The limits on memory and on the number of watches are not reached.)
pub record Epoll (K : Type 0) : Type 0 where
  pub epoll_ctl : EpollOperation → ℕ → ℕ → Events → K → K × Bool
  pub watched : K → ℕ → Option (ℕ × Events)
  pub adds :
      (fd pointer : ℕ) (events : Events) (k : K)
      → watched k fd ≡ none
      → ((epoll_ctl ctl_add fd pointer events k).1 ≡ true)
        × (watched (epoll_ctl ctl_add fd pointer events k).0 fd ≡ some (pointer, events))
  pub modifies :
      (fd pointer : ℕ) (events : Events) (k : K) (old : ℕ × Events)
      → watched k fd ≡ some old
      → ((epoll_ctl ctl_mod fd pointer events k).1 ≡ true)
        × (watched (epoll_ctl ctl_mod fd pointer events k).0 fd ≡ some (pointer, events))
  pub deletes :
      (fd pointer : ℕ) (events : Events) (k : K) (old : ℕ × Events)
      → watched k fd ≡ some old
      → ((epoll_ctl ctl_del fd pointer events k).1 ≡ true)
        × (watched (epoll_ctl ctl_del fd pointer events k).0 fd ≡ none)
  pub spares :
      (operation : EpollOperation) (fd pointer : ℕ) (events : Events) (k : K) (other : ℕ)
      → other ≢ fd
      → watched (epoll_ctl operation fd pointer events k).0 other ≡ watched k other

-- `m_channels` is the map from file descriptors to channels, by address; `kernel` is the system's
-- state behind `m_epfd`; of `m_events` only the size counts.
pub record EpollPoller (K : Type 0) : Type 0 where
  pub m_channels : ℕ → Option ℕ
  pub kernel : K
  pub m_events_size : ℕ

abbrev pub init_event_list_size : ℕ
init_event_list_size = 16

unfoldable pub init : {K : Type 0} → K → EpollPoller K
init kernel = record {
  m_channels = λ fd. none;
  kernel = kernel;
  m_events_size = init_event_list_size;
}

-- `m_channels[fd] = channel`, and `erase(fd)` for `none`.
abbrev pub map_at : ℕ → Option ℕ → (ℕ → Option ℕ) → ℕ → Option ℕ
map_at fd entry channels other = if other == fd then entry else channels other

-- `item != end() && item->second == channel`
abbrev pub is_entry : ℕ → Option ℕ → Bool
is_entry address none = false
is_entry address (some found) = found == address

unfoldable pub has_channel : {K : Type 0} → Channel → EpollPoller K → Bool
has_channel c p = is_entry c.address (p.m_channels c.m_fd)

module _ {K : Type 0} (system : Epoll K) where
  abbrev is_del : EpollOperation → Bool
  is_del ctl_add = false
  is_del ctl_mod = false
  is_del ctl_del = true

  unfoldable pub update : EpollOperation → Channel → EpollPoller K → Outcome (EpollPoller K)
  update operation c p =
      let (kernel, done) = system.epoll_ctl operation c.m_fd c.address c.m_events p.kernel in
      if done || is_del operation then ok (record p { kernel = kernel }) else fault

  -- The branch of `updateChannel` for `kNew` and `kDeleted`, with the map to start from.
  unfoldable pub add_channel :
      (ℕ → Option ℕ) → Channel → EpollPoller K → Outcome (Channel × EpollPoller K)
  unfolding update
  add_channel channels c p = do
    p' ← update ctl_add c (record p { m_channels = channels })
    ok (record c { m_index = k_added }, p')

  -- The branch of `updateChannel` for a channel that was added.
  unfoldable pub change_channel : Channel → EpollPoller K → Outcome (Channel × EpollPoller K)
  unfolding update
  change_channel c p =
      let dropped : Outcome (Channel × EpollPoller K) = do
        p' ← update ctl_del c p
        ok (record c { m_index = k_deleted }, p')
      in let changed : Outcome (Channel × EpollPoller K) = do p' ← update ctl_mod c p; ok (c, p')
        in if is_none_event c then dropped else changed

  unfoldable pub update_by :
      ChannelIndex → Channel → EpollPoller K → Outcome (Channel × EpollPoller K)
  unfolding add_channel change_channel
  update_by k_new c p = add_channel (map_at c.m_fd (some c.address) p.m_channels) c p
  update_by k_deleted c p = add_channel p.m_channels c p
  update_by k_added c p = change_channel c p

  unfoldable pub update_channel : Channel → EpollPoller K → Outcome (Channel × EpollPoller K)
  unfolding update_by
  update_channel c p = update_by c.m_index c p

  unfoldable pub remove_by :
      ChannelIndex → Channel → EpollPoller K → Outcome (Channel × EpollPoller K)
  unfolding update
  remove_by k_added c p = do
    p' ← update ctl_del c (record p { m_channels = map_at c.m_fd none p.m_channels })
    ok (record c { m_index = k_new }, p')
  remove_by index c p =
      ok (record c { m_index = k_new }, record p { m_channels = map_at c.m_fd none p.m_channels })

  unfoldable pub remove_channel : Channel → EpollPoller K → Outcome (Channel × EpollPoller K)
  unfolding remove_by
  remove_channel c p = remove_by c.m_index c p
