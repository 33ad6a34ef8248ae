-- ===== src/EpollPoller/Registration.antt =====
-- `updateChannel` and `removeChannel` of src/tcp/EpollPoller.cpp: a channel's index says what the map
-- and the system know of it.
use dwt_src.Prelude.{
  ℕ, ◌≡◌, ◌≢◌, refl, ap, ◌∙◌, Bool, true, false, Option, none, some, inl, inr, Bool-cases,
  if◌then◌else◌, ◌==◌, arith, Returns, returns, Returns-bind,
}
use dwt_src.Channel.{Events, Channel, ChannelIndex, k_new, k_added, k_deleted, is_none_event}
use dwt_src.EpollPoller.{
  Epoll, EpollOperation, ctl_add, ctl_mod, ctl_del, EpollPoller, map_at, update, add_channel,
  change_channel, update_by, update_channel, remove_by, remove_channel,
}

-- What the system watches for a channel of this index.
abbrev pub watch_of : ChannelIndex → ℕ → Events → Option (ℕ × Events)
watch_of k_added address events = some (address, events)
watch_of k_new address events = none
watch_of k_deleted address events = none

-- The map's entry for a channel of this index.
abbrev pub entry_of : ChannelIndex → ℕ → Option ℕ
entry_of k_new address = none
entry_of k_added address = some address
entry_of k_deleted address = some address

-- The index after an update: from added, to deleted when no event is left.
abbrev pub next_index : ChannelIndex → Bool → ChannelIndex
next_index k_new is_none = k_added
next_index k_deleted is_none = k_added
next_index k_added is_none = if is_none then k_deleted else k_added

module _ {K : Type 0} (system : Epoll K) where
  -- The map and the system hold of the descriptor `fd` what a channel of it has there.
  pub record Placed (index : ChannelIndex) (address fd : ℕ) (events : Events) (p : EpollPoller K)
      : Type 0 where
    pub watch : system.watched p.kernel fd ≡ watch_of index address events
    pub entry : p.m_channels fd ≡ entry_of index address

  abbrev pub IsPlaced : Channel → EpollPoller K → Type 0
  IsPlaced c p = Placed c.m_index c.address c.m_fd c.m_events p

  -- No other descriptor is touched.
  pub record Spares (fd : ℕ) (p p' : EpollPoller K) : Type 0 where
    pub watches :
        (other : ℕ) → other ≢ fd → system.watched p'.kernel other ≡ system.watched p.kernel other
    pub entries : (other : ℕ) → other ≢ fd → p'.m_channels other ≡ p.m_channels other
    pub size : p'.m_events_size ≡ p.m_events_size

  Spares-refl : (fd : ℕ) (p : EpollPoller K) → Spares fd p p
  Spares-refl fd p = record {
    watches = λ other differs. refl;
    entries = λ other differs. refl;
    size = refl;
  }

  -- A call of `update` that the system accepts.
  update_lem :
      (operation : EpollOperation) (c : Channel) (p : EpollPoller K) (after : Option (ℕ × Events))
      → ((system.epoll_ctl operation c.m_fd c.address c.m_events p.kernel).1 ≡ true)
        × (system.watched (system.epoll_ctl operation c.m_fd c.address c.m_events p.kernel).0 c.m_fd
            ≡ after)
      → Returns
          (λ p'.
            (system.watched p'.kernel c.m_fd ≡ after)
            × (p'.m_channels ≡ p.m_channels)
            × Spares c.m_fd p p')
          (update system operation c p)
  unfolding update
  update_lem operation c p after (done, watches) = rw done (
      returns (
        watches,
        refl,
        record {
          watches = system.spares operation c.m_fd c.address c.m_events p.kernel;
          entries = λ other differs. refl;
          size = refl;
        },
      ))

  map_at-same : (fd : ℕ) (entry : Option ℕ) (m : ℕ → Option ℕ) → map_at fd entry m fd ≡ entry
  map_at-same fd entry m = let same : (fd == fd) ≡ true = ground arith in rw same refl

  map_at-other :
      (fd : ℕ) (entry : Option ℕ) (m : ℕ → Option ℕ) (other : ℕ)
      → other ≢ fd
      → map_at fd entry m other ≡ m other
  map_at-other fd entry m other differs =
      let no_hit : (other == fd) ≡ false = ground arith in rw no_hit refl

  -- The channel with this index, whose place the poller holds with its own events, and nothing else
  -- touched.
  pub record Updated (c : Channel) (p : EpollPoller K) (index : ChannelIndex) (c' : Channel)
      (p' : EpollPoller K) : Type 0 where
    pub channel : c' ≡ record c { m_index = index }
    pub placed : Placed index c.address c.m_fd c.m_events p'
    pub spares : Spares c.m_fd p p'

  add_channel_lem :
      (c : Channel) (p : EpollPoller K) (channels : ℕ → Option ℕ)
      → system.watched p.kernel c.m_fd ≡ none
      → channels c.m_fd ≡ some c.address
      → ((other : ℕ) → other ≢ c.m_fd → channels other ≡ p.m_channels other)
      → Returns (λ (c', p'). Updated c p k_added c' p') (add_channel system channels c p)
  unfolding add_channel
  add_channel_lem c p channels unwatched here others =
      Returns-bind
        (update_lem ctl_add c (record p { m_channels = channels }) (some (c.address, c.m_events))
          (system.adds c.m_fd c.address c.m_events p.kernel unwatched))
        λ p' (watch, kept, spares). returns (record {
          channel = refl;
          placed = record { watch = watch; entry = ap (λ m. m c.m_fd) kept ∙ here };
          spares = record {
            watches = spares.watches;
            entries = λ other differs. ap (λ m. m other) kept ∙ others other differs;
            size = spares.size;
          };
        })

  change_channel_lem :
      (c : Channel) (p : EpollPoller K) (old : ℕ × Events)
      → c.m_index ≡ k_added
      → system.watched p.kernel c.m_fd ≡ some old
      → p.m_channels c.m_fd ≡ some c.address
      → Returns
          (λ (c', p'). Updated c p (next_index k_added (is_none_event c)) c' p')
          (change_channel system c p)
  unfolding change_channel
  change_channel_lem c p old added watched here = elim (Bool-cases (is_none_event c)) [
    | inl e ↦ rw e (
        Returns-bind
          (update_lem ctl_del c p none
            (system.deletes c.m_fd c.address c.m_events p.kernel old watched))
          λ p' (watch, kept, spares). returns (record {
            channel = refl;
            placed = record { watch = watch; entry = ap (λ m. m c.m_fd) kept ∙ here };
            spares = spares;
          }))
    | inr e ↦ rw e (
        Returns-bind
          (update_lem ctl_mod c p (some (c.address, c.m_events))
            (system.modifies c.m_fd c.address c.m_events p.kernel old watched))
          λ p' (watch, kept, spares). returns (record {
            channel = ap (λ index. record c { m_index = index }) added;
            placed = record { watch = watch; entry = ap (λ m. m c.m_fd) kept ∙ here };
            spares = spares;
          }))
  ]

  update_by_lem :
      (index : ChannelIndex) (c : Channel) (p : EpollPoller K) (old : Events)
      → c.m_index ≡ index
      → Placed index c.address c.m_fd old p
      → Returns
          (λ (c', p'). Updated c p (next_index index (is_none_event c)) c' p')
          (update_by system index c p)
  unfolding update_by
  update_by_lem k_new c p old is_index placed =
      add_channel_lem c p (map_at c.m_fd (some c.address) p.m_channels) placed.watch
        (map_at-same c.m_fd (some c.address) p.m_channels)
        (map_at-other c.m_fd (some c.address) p.m_channels)
  update_by_lem k_deleted c p old is_index placed =
      add_channel_lem c p p.m_channels placed.watch placed.entry (λ other differs. refl)
  update_by_lem k_added c p old is_index placed =
      change_channel_lem c p (c.address, old) is_index placed.watch placed.entry

  -- When the poller holds a channel as its index says, with any events that it had before, then
  -- `updateChannel` makes no call that the system refuses, leaves the index that follows from the
  -- old one and the new events, holds the channel with its new events, and touches no other
  -- descriptor.
  pub update_channel_lem :
      (c : Channel) (p : EpollPoller K) (old : Events)
      → Placed c.m_index c.address c.m_fd old p
      → Returns
          (λ (c', p'). Updated c p (next_index c.m_index (is_none_event c)) c' p')
          (update_channel system c p)
  unfolding update_channel
  update_channel_lem c p old placed = update_by_lem c.m_index c p old refl placed

  unmapped :
      (c : Channel) (p : EpollPoller K)
      → system.watched p.kernel c.m_fd ≡ none
      → Updated c p k_new
          (record c { m_index = k_new })
          (record p { m_channels = map_at c.m_fd none p.m_channels })
  unmapped c p unwatched = record {
    channel = refl;
    placed = record { watch = unwatched; entry = map_at-same c.m_fd none p.m_channels };
    spares = record {
      watches = λ other differs. refl;
      entries = map_at-other c.m_fd none p.m_channels;
      size = refl;
    };
  }

  remove_by_lem :
      (index : ChannelIndex) (c : Channel) (p : EpollPoller K)
      → Placed index c.address c.m_fd c.m_events p
      → Returns (λ (c', p'). Updated c p k_new c' p') (remove_by system index c p)
  unfolding remove_by
  remove_by_lem k_added c p placed =
      Returns-bind
        (update_lem ctl_del c (record p { m_channels = map_at c.m_fd none p.m_channels }) none
          (system.deletes c.m_fd c.address c.m_events p.kernel (c.address, c.m_events)
            placed.watch))
        λ p' (watch, kept, spares). returns (record {
          channel = refl;
          placed = record {
            watch = watch;
            entry = ap (λ m. m c.m_fd) kept ∙ map_at-same c.m_fd none p.m_channels;
          };
          spares = record {
            watches = spares.watches;
            entries = λ other differs.
                ap (λ m. m other) kept ∙ map_at-other c.m_fd none p.m_channels other differs;
            size = spares.size;
          };
        })
  remove_by_lem k_new c p placed = returns (unmapped c p placed.watch)
  remove_by_lem k_deleted c p placed = returns (unmapped c p placed.watch)

  -- When the poller holds a channel as its index says, then `removeChannel` makes no call that the
  -- system refuses, and leaves a new channel that neither the map nor the system knows, with no other
  -- descriptor touched.
  pub remove_channel_lem :
      (c : Channel) (p : EpollPoller K)
      → IsPlaced c p
      → Returns (λ (c', p'). Updated c p k_new c' p') (remove_channel system c p)
  unfolding remove_channel
  remove_channel_lem c p placed = remove_by_lem c.m_index c p placed
