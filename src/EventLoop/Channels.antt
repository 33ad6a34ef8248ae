-- ===== src/EventLoop/Channels.antt =====
-- The operations of src/tcp/Channel.cpp on a channel that its poller holds.
use dwt_src.Prelude.{
  ℕ, ◌≡◌, refl, sym, subst, List, [], ◌∷◌, Outcome, ok, ◌>>=◌, Returns, returns, Returns-bind,
}
use dwt_src.Channel.{
  Events, Channel, ChannelIndex, none_event, read_event, write_event, union, without, is_none_event,
  k_new,
}
use dwt_src.EpollPoller.{Epoll}
use dwt_src.EpollPoller.Registration.{
  Placed, IsPlaced, Spares, next_index, update_channel_lem, remove_channel_lem,
}
use dwt_src.EventLoop.{
  EventLoop, update_channel, remove_channel, enable_reading, disable_reading, enable_writing,
  disable_writing, disable_all,
}

-- The calls on a channel that change it.
pub data ChannelCall : Type 0 where
  enables_reading disables_reading enables_writing disables_writing disables_all removes :
      ChannelCall

-- The events after the call.
abbrev pub events_after : ChannelCall → Events → Events
events_after enables_reading events = union events read_event
events_after disables_reading events = without events read_event
events_after enables_writing events = union events write_event
events_after disables_writing events = without events write_event
events_after disables_all events = none_event
events_after removes events = events

abbrev pub index_after : ChannelCall → Channel → ChannelIndex
index_after removes c = k_new
index_after call c =
    next_index c.m_index (is_none_event (record c { m_events = events_after call c.m_events }))

module _ {K F : Type 0} (system : Epoll K) where
  unfoldable pub make : ChannelCall → Channel → EventLoop K F → Outcome (Channel × EventLoop K F)
  make enables_reading = enable_reading system
  make disables_reading = disable_reading system
  make enables_writing = enable_writing system
  make disables_writing = disable_writing system
  make disables_all = disable_all system
  make removes = remove_channel system

  -- Only the poller of the loop changes, where it holds the descriptor `fd`.
  pub record Changes (fd : ℕ) (l l' : EventLoop K F) : Type 0 where
    pub same : l' ≡ record l { m_poller = l'.m_poller }
    pub spares : Spares system fd l.m_poller l'.m_poller

  -- The channel has the events and the index, its place is right, and nothing else changed.
  pub record Moved (c : Channel) (l : EventLoop K F) (index : ChannelIndex) (events : Events)
      (c' : Channel) (l' : EventLoop K F) : Type 0 where
    pub channel : c' ≡ record c { m_events = events; m_index = index }
    pub placed : Placed system index c.address c.m_fd events l'.m_poller
    pub changes : Changes c.m_fd l l'

  pub Moved-IsPlaced :
      (c : Channel) (l : EventLoop K F) (index : ChannelIndex) (events : Events) (c' : Channel)
      (l' : EventLoop K F)
      → Moved c l index events c' l'
      → IsPlaced system c' l'.m_poller
  Moved-IsPlaced c l index events c' l' moved =
      subst (λ c'. IsPlaced system c' l'.m_poller) (sym moved.channel) moved.placed

  update_lem :
      (c : Channel) (l : EventLoop K F) (events : Events)
      → IsPlaced system c l.m_poller
      → Returns
          (λ (c', l').
            Moved c l
              (next_index c.m_index (is_none_event (record c { m_events = events })))
              events
              c'
              l')
          (update_channel system (record c { m_events = events }) l)
  unfolding update_channel
  update_lem c l events placed =
      Returns-bind
        (update_channel_lem system (record c { m_events = events }) l.m_poller c.m_events placed)
        λ (c', p) u. returns (record {
          channel = u.channel;
          placed = u.placed;
          changes = record { same = refl; spares = u.spares };
        })

  -- From a channel whose place in the poller is right, every call that changes the channel returns
  -- without a refusal by the system, gives the channel the events and the index that the call is to
  -- give, leaves its place right, and changes nothing of another descriptor or of the rest of the
  -- loop.
  pub channel_call_lem :
      (call : ChannelCall) (c : Channel) (l : EventLoop K F)
      → IsPlaced system c l.m_poller
      → Returns
          (λ (c', l'). Moved c l (index_after call c) (events_after call c.m_events) c' l')
          (make call c l)
  unfolding make enable_reading disable_reading enable_writing disable_writing disable_all
      remove_channel
  channel_call_lem enables_reading c l placed = update_lem c l _ placed
  channel_call_lem disables_reading c l placed = update_lem c l _ placed
  channel_call_lem enables_writing c l placed = update_lem c l _ placed
  channel_call_lem disables_writing c l placed = update_lem c l _ placed
  channel_call_lem disables_all c l placed = update_lem c l _ placed
  channel_call_lem removes c l placed =
      Returns-bind (remove_channel_lem system c l.m_poller placed) λ (c', p) u. returns (record {
        channel = u.channel;
        placed = u.placed;
        changes = record { same = refl; spares = u.spares };
      })

  unfoldable pub make_all :
      List ChannelCall → Channel → EventLoop K F → Outcome (Channel × EventLoop K F)
  make_all [] c l = ok (c, l)
  make_all (call ∷ calls) c l = do (c', l') ← make call c l; make_all calls c' l'

  -- From a channel whose place in the poller is right, any sequence of calls that change the channel
  -- returns, without a refusal by the system, and leaves its place right.
  pub channel_calls_lem :
      (calls : List ChannelCall) (c : Channel) (l : EventLoop K F)
      → IsPlaced system c l.m_poller
      → Returns (λ (c', l'). IsPlaced system c' l'.m_poller) (make_all calls c l)
  unfolding make_all
  channel_calls_lem [] c l placed = returns placed
  channel_calls_lem (call ∷ calls) c l placed =
      Returns-bind (channel_call_lem call c l placed)
        λ (c', l') moved. channel_calls_lem calls c' l' (Moved-IsPlaced c l _ _ c' l' moved)
