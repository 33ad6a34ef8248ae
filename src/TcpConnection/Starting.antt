-- ===== src/TcpConnection/Starting.antt =====
-- The start of a connection of src/tcp/TcpConnection.cpp: the constructor and `connectEstablished`.
use dwt_src.Prelude.{
  Bool, false, Returns-map, ℕ, ◌≡◌, refl, ap, true, none, [], Returns, returns, Returns-bind,
}
use dwt_src.Bytes.{Bytes}
use dwt_src.Buffer.Contents.{init-Shows}
use dwt_src.Channel.{new_channel, is_writing, is_reading, tie}
use dwt_src.EpollPoller.{Epoll}
use dwt_src.EventLoop.Channels.{make, enables_reading, channel_call_lem, Moved-IsPlaced}
use dwt_src.TcpConnection.{TcpConnection, Loop, new_connection, is_connected}
use dwt_src.TcpConnection.Handlers.{connect_established}
use dwt_src.TcpConnection.Runs.{Good}
use dwt_src.TcpConnection.Closing.{noting}

-- The constructor, and whether the server sets a callback for completed writes.
abbrev pub fresh_connection : ℕ → ℕ → ℕ → Bytes → Bool → TcpConnection
fresh_connection address channel_address fd name completes =
    record (new_connection address name channel_address fd) {
      has_write_complete_callback = completes;
    }

module _ {K W : Type 0} (system : Epoll K) (connection close : TcpConnection → W → W) where
  -- A connection that has just been established in the loop `l`, after its callback.
  abbrev pub IsEstablished : W → TcpConnection → Loop K → W → Type 0
  IsEstablished w c l w' =
      Good system c l []
      × (is_connected c.m_state ≡ true)
      × (is_reading c.m_channel ≡ true)
      × (c.m_channel.m_tied ≡ true)
      × (c.m_socket.accepted ≡ [])
      × (w' ≡ connection c w)

  pub fresh-IsEstablished :
      (address channel_address fd : ℕ) (name : Bytes) (completes : Bool) (l : Loop K) (w : W)
      → l.m_poller.m_channels fd ≡ none
      → system.watched l.m_poller.kernel fd ≡ none
      → Returns
          (λ (c, l', w'). IsEstablished w c l' w' × (c.m_name ≡ name))
          (connect_established system
            (noting connection close)
            (fresh_connection address channel_address fd name completes, l, w))
  unfolding connect_established new_connection new_channel tie make is_reading is_writing
  fresh-IsEstablished address channel_address fd name completes l w unmapped unwatched =
      Returns-bind
        (channel_call_lem system enables_reading (tie (new_channel channel_address fd)) l
          (record { watch = unwatched; entry = unmapped }))
        λ (channel, l') moved. returns (
          (
            record {
              still = record {
                is_open = refl;
                shows = init-Shows;
                placed =
                    Moved-IsPlaced system (tie (new_channel channel_address fd)) l _ _ channel l'
                      moved;
                writing = ap is_writing moved.channel;
              };
              phase = refl;
              shut = refl;
            },
            refl,
            ap is_reading moved.channel,
            ap (λ ch. ch.m_tied) moved.channel,
            refl,
            refl,
          ),
          refl,
        )

  -- On a descriptor that neither the poller nor the system knows, `connectEstablished` of a new
  -- connection, with callbacks that leave it and the loop alone, returns without a refusal by the
  -- system; the connection is connected, tied, waits to read and not to write, with nothing pending
  -- and its write side open, and the connection callback was called once.
  pub connect_established_lem :
      (address channel_address fd : ℕ) (name : Bytes) (l : Loop K) (w : W)
      → l.m_poller.m_channels fd ≡ none
      → system.watched l.m_poller.kernel fd ≡ none
      → Returns
          (λ (c, l', w').
            Good system c l' []
            × (is_connected c.m_state ≡ true)
            × (is_reading c.m_channel ≡ true)
            × (c.m_channel.m_tied ≡ true)
            × (c.m_socket.accepted ≡ [])
            × (w' ≡ connection c w))
          (connect_established system
            (noting connection close)
            (new_connection address name channel_address fd, l, w))
  unfolding new_connection
  connect_established_lem address channel_address fd name l w unmapped unwatched =
      Returns-map (fresh-IsEstablished address channel_address fd name false l w unmapped unwatched)
        λ (c, l', w') established. established.0
