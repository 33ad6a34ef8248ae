-- ===== src/TcpConnection/Streams.antt =====
-- The bytes of a connection of src/tcp/TcpConnection.cpp: those that the system accepted and those
-- that wait in the output buffer make one stream.
use dwt_src.Prelude.{
  ℕ, ◌+◌, ◌-◌, ◌≤◌, ◌<◌, ◌≡◌, refl, sym, ap, subst, ◌∙◌, Bool, true, false, not, [], ◌∷◌, arith,
  inl, inr, Bool-cases, leb, length, drop, length-drop, take-all, ok, Returns, Returns-map,
}
use dwt_src.Bytes.{Bytes}
use dwt_src.Buffer.Contents.{Shows}
use dwt_src.Channel.{Events, Channel, is_writing, union, without, meets, write_event}
use dwt_src.EpollPoller.{Epoll}
use dwt_src.EpollPoller.Registration.{IsPlaced}
use dwt_src.EventLoop.{queue_in_loop, push_functor, wakeup, enable_writing, disable_writing}
use dwt_src.EventLoop.Channels.{
  Moved-IsPlaced, channel_call_lem, make, enables_writing, disables_writing,
}
use dwt_src.TcpConnection.{
  TcpConnection, Functor, Loop, is_disconnected, slice, size_minus, size_modulus, queue_if,
}

abbrev pub is_empty : Bytes → Bool
is_empty [] = true
is_empty (byte ∷ bytes) = false

pub queue_if-poller :
    {K : Type 0} (test : Bool) (func : Functor) (l : Loop K)
    → (queue_if test func l).m_poller ≡ l.m_poller
unfolding queue_in_loop push_functor wakeup
queue_if-poller false func l = refl
queue_if-poller true func l = elim (Bool-cases l.m_calling_pending_functors) [
  | inl e ↦ rw e refl
  | inr e ↦ rw e refl
]

union_writes : (e : Events) → meets (union e write_event) write_event ≡ true
union_writes e = ground arith

without_writes : (e : Events) → meets (without e write_event) write_event ≡ false
without_writes e = ground arith

pub slice_rest :
    (from len : ℕ) (message : Bytes)
    → from + len ≡ length message
    → slice from len message ≡ ok (drop from message)
slice_rest from len message whole =
    let inside : leb (from + len) (length message) ≡ true = ground arith in
    rw inside (ap ok (take-all len (drop from message) (omega (arith, length-drop from message))))

pub size_minus_lem : (a b : ℕ) → b ≤ a → a < size_modulus → size_minus a b ≡ a - b
size_minus_lem a b le below = omega arith

module _ {K : Type 0} (system : Epoll K) where
  -- An open connection whose output buffer holds `pending`: it waits to write just when there is
  -- something to be written.
  pub record Open (c : TcpConnection) (l : Loop K) (pending : Bytes) : Type 0 where
    pub is_open : is_disconnected c.m_state ≡ false
    pub shows : Shows c.m_output_buffer pending
    pub placed : IsPlaced system c.m_channel l.m_poller
    pub writing : is_writing c.m_channel ≡ not (is_empty pending)

  pub queue_if-IsPlaced :
      (test : Bool) (func : Functor) (channel : Channel) (l : Loop K)
      → IsPlaced system channel l.m_poller
      → IsPlaced system channel (queue_if test func l).m_poller
  queue_if-IsPlaced test func channel l placed =
      subst (IsPlaced system channel) (sym (queue_if-poller test func l)) placed

  -- A channel that its poller holds and that waits to write.
  abbrev pub Waits : Channel × Loop K → Type 0
  Waits (channel, l) = IsPlaced system channel l.m_poller × (is_writing channel ≡ true)

  pub enable_writing_lem :
      (channel : Channel) (l : Loop K)
      → IsPlaced system channel l.m_poller
      → Returns Waits (enable_writing system channel l)
  unfolding make is_writing
  enable_writing_lem channel l placed =
      Returns-map (channel_call_lem system enables_writing channel l placed) λ (channel', l') moved.
        (
          Moved-IsPlaced system channel l _ _ channel' l' moved,
          ap is_writing moved.channel ∙ union_writes channel.m_events,
        )

  pub disable_writing_lem :
      (channel : Channel) (l : Loop K)
      → IsPlaced system channel l.m_poller
      → Returns
          (λ (channel', l'). IsPlaced system channel' l'.m_poller × (is_writing channel' ≡ false))
          (disable_writing system channel l)
  unfolding make is_writing
  disable_writing_lem channel l placed =
      Returns-map (channel_call_lem system disables_writing channel l placed)
        λ (channel', l') moved. (
          Moved-IsPlaced system channel l _ _ channel' l' moved,
          ap is_writing moved.channel ∙ without_writes channel.m_events,
        )
