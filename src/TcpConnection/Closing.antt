-- ===== src/TcpConnection/Closing.antt =====
-- The end of a connection of src/tcp/TcpConnection.cpp: its last writes, `handleClose` and
-- `connectDestoryed`.
use dwt_src.Prelude.{
  append_empty, ℕ, suc, ◌≤◌, ◌≡◌, refl, sym, ap, ◌∙◌, true, ◌&&◌, List, [], ◌∷◌, ◌++◌, arith,
  length, length-drop, take, drop, take-drop, Outcome, ok, ◌>>=◌, Returns, returns, Returns-bind,
  Returns-map,
}
use mathlib.Core.List.{append_assoc}
use dwt_src.Bytes.{Bytes}
use dwt_src.Channel.{Channel, ChannelIndex, none_event, k_new}
use dwt_src.EpollPoller.{Epoll}
use dwt_src.EpollPoller.Registration.{IsPlaced}
use dwt_src.EventLoop.{disable_all}
use dwt_src.EventLoop.Channels.{make, channel_call_lem, disables_all, removes, Moved-IsPlaced}
use dwt_src.TcpConnection.{
  TcpConnection, Loop, is_disconnecting, is_disconnected, k_disconnected, size_modulus, size_minus,
  send_in_loop, buffer_rest, handle_write, queue_if, write_complete_callback, slice,
}
use dwt_src.TcpConnection.Handlers.{Callbacks, handle_close, connect_destroyed}
use dwt_src.TcpConnection.Streams.{is_empty}
use dwt_src.TcpConnection.Outputs.{no_bytes}
use dwt_src.TcpConnection.Acts.{Act, writes}
use dwt_src.TcpConnection.Runs.{run, Good, Took, writes_Took}

-- `handleWrite` again and again, with room for one byte at least each time.
abbrev pub all_writes : List ℕ → List Act
all_writes [] = []
all_writes (n ∷ ns) = writes (suc n) ∷ all_writes ns

module _ {K : Type 0} (system : Epoll K) where
  -- A connection that is to be closed shuts its write side down, with every pending byte accepted by
  -- the system, after as many calls of `handleWrite` as bytes are pending, or more, when every call
  -- finds room for one byte at least.
  pub finishes_lem :
      (ns : List ℕ) (c : TcpConnection) (l : Loop K) (pending : Bytes)
      → Good system c l pending
      → is_disconnecting c.m_state ≡ true
      → length pending ≤ length ns
      → Returns
          (λ (c', l').
            (c'.m_socket.write_shut ≡ true)
            × (c'.m_socket.accepted ≡ c.m_socket.accepted ++ pending))
          (run system (all_writes ns) (c, l))
  unfolding run dwt_src.TcpConnection.Runs.act
  finishes_lem [] c l pending g closing enough =
      let nothing : pending ≡ [] = no_bytes pending (omega arith) in
      returns (
        g.shut ∙ ap (λ b. b && is_empty pending) closing ∙ ap is_empty nothing,
        sym (append_empty c.m_socket.accepted) ∙ ap (c.m_socket.accepted ++◌) (sym nothing),
      )
  finishes_lem (n ∷ ns) c l pending g closing enough =
      Returns-bind (writes_Took system (suc n) c l pending g) λ (c', l') took.
        Returns-map
          (finishes_lem ns c' l' (drop (suc n) pending) took.good
            (ap is_disconnecting took.state ∙ closing)
            (omega (arith, enough, length-drop (suc n) pending)))
          λ (c'', l'') (shut, all). (
            shut,
            all
                ∙ ap (λ xs. xs ++ drop (suc n) pending) took.accepted
                ∙ append_assoc c.m_socket.accepted (take (suc n) pending) (drop (suc n) pending)
                ∙ ap (c.m_socket.accepted ++◌) (sym (take-drop (suc n) pending)),
          )

abbrev as_new : Channel → Channel
as_new c = record c { m_index = k_new }

abbrev unset : Channel → Channel
unset c = record c { m_events = none_event }

with_index : (c : Channel) → c.m_index ≡ k_new → c ≡ record c { m_index = k_new }
with_index c e = ap {A = ChannelIndex} {B = Channel} (λ index. record c { m_index = index }) e

-- Callbacks that only note the call in the rest `W` of the program.
abbrev pub noting :
    {K W : Type 0}
    → (TcpConnection → W → W)
    → (TcpConnection → W → W)
    → Callbacks (TcpConnection × Loop K × W)
noting connection close = record {
  m_connection_callback = λ (c, l, w). ok (c, l, connection c w);
  m_message_callback = λ s. ok s;
  m_close_callback = λ (c, l, w). ok (c, l, close c w);
}

module _ {K W : Type 0} (system : Epoll K) (connection close : TcpConnection → W → W) where
  disable_all_lem :
      (c : TcpConnection) (l : Loop K)
      → IsPlaced system c.m_channel l.m_poller
      → Returns
          (λ (channel, l').
            IsPlaced system channel l'.m_poller
            × (record channel { m_index = k_new }
                ≡ record c.m_channel { m_events = none_event; m_index = k_new }))
          (disable_all system c.m_channel l)
  unfolding make
  disable_all_lem c l placed =
      Returns-map (channel_call_lem system disables_all c.m_channel l placed) λ (channel, l') moved.
        (Moved-IsPlaced system c.m_channel l _ _ channel l' moved, ap as_new moved.channel)

  -- A disconnected connection of this channel, which has its place in the poller.
  record Closed (c c' : TcpConnection) (l' : Loop K) : Type 0 where
    state : c'.m_state ≡ k_disconnected
    channel :
        record c'.m_channel { m_index = k_new }
        ≡ record c.m_channel { m_events = none_event; m_index = k_new }
    placed : IsPlaced system c'.m_channel l'.m_poller

  handle_close_lem :
      (c : TcpConnection) (l : Loop K) (w : W)
      → IsPlaced system c.m_channel l.m_poller
      → Returns
          (λ (c', l', w'). Closed c c' l' × (w' ≡ close c' (connection c' w)))
          (handle_close system (noting connection close) (c, l, w))
  unfolding handle_close
  handle_close_lem c l w placed =
      Returns-bind (disable_all_lem c l placed) λ (channel, l') (placed', off).
        returns (record { state = refl; channel = off; placed = placed' }, refl)

  connect_destroyed_lem :
      (c : TcpConnection) (l : Loop K) (w : W)
      → c.m_state ≡ k_disconnected
      → IsPlaced system c.m_channel l.m_poller
      → Returns
          (λ (c', l', w').
            Closed c c' l'
            × (c'.m_channel.m_index ≡ k_new)
            × ((c'' : TcpConnection) × (w' ≡ connection c'' w)))
          (connect_destroyed system (noting connection close) (c, l, w))
  unfolding connect_destroyed make
  connect_destroyed_lem c l w state placed =
      let is_off : is_disconnected c.m_state ≡ true = ap is_disconnected state in
      rw is_off (
        Returns-bind {Post = λ (c', l', w'). Closed c c' l' × (w' ≡ connection c' w)}
          (Returns-bind (disable_all_lem c l placed) λ (channel, l') (placed', off).
            returns (record { state = refl; channel = off; placed = placed' }, refl))
          λ (c', l', w') (closed, noted).
            Returns-bind (channel_call_lem system removes c'.m_channel l' closed.placed)
              λ (channel, l'') moved. returns (
                record {
                  state = closed.state;
                  channel = ap as_new moved.channel ∙ closed.channel;
                  placed = Moved-IsPlaced system c'.m_channel l' _ _ channel l'' moved;
                },
                ap (λ ch. ch.m_index) moved.channel,
                (c', noted),
              ))

  -- `handleClose`, then `connectDestoryed`.
  unfoldable pub close_and_destroy :
      TcpConnection × Loop K × W → Outcome (TcpConnection × Loop K × W)
  close_and_destroy s = do
    s' ← handle_close system (noting connection close) s
    connect_destroyed system (noting connection close) s'

  -- A connection whose channel has its place in the poller, with callbacks that leave it and the loop
  -- alone, is taken out of the poller by `handleClose` and then `connectDestoryed`, without a refusal
  -- by the system; the connection callback is called before the close callback and once more
  -- after it.
  pub close_and_destroy_lem :
      (c : TcpConnection) (l : Loop K) (w : W)
      → IsPlaced system c.m_channel l.m_poller
      → Returns
          (λ (c', l', w').
            (c'.m_state ≡ k_disconnected)
            × (c'.m_channel ≡ record c.m_channel { m_events = none_event; m_index = k_new })
            × IsPlaced system c'.m_channel l'.m_poller
            × ((first second third : TcpConnection) × (w'
                  ≡ connection third (close second (connection first w)))))
          (close_and_destroy (c, l, w))
  unfolding close_and_destroy
  close_and_destroy_lem c l w placed =
      Returns-bind (handle_close_lem c l w placed) λ (c', l', w') (closed, noted).
        Returns-map (connect_destroyed_lem c' l' w' closed.state closed.placed)
          λ (c'', l'', w'') (destroyed, is_new, (third, noted')). (
            destroyed.state,
            with_index c''.m_channel is_new ∙ destroyed.channel ∙ ap unset closed.channel,
            destroyed.placed,
            (c', c', third, noted' ∙ ap (connection third) noted),
          )
