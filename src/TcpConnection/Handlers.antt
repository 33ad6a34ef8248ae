-- ===== src/TcpConnection/Handlers.antt =====
-- The handlers of src/tcp/TcpConnection.cpp that call the callbacks of the connection's user, and the
-- start and end of a connection. `W` is the rest of the program, which the callbacks may change.
use dwt_src.Prelude.{ℕ, true, Option, none, some, [], ◌∷◌, if◌then◌else◌, Outcome, ok, fault, ◌>>=◌}
use dwt_src.Bytes.{Bytes}
use dwt_src.Buffer.{read_fd}
use dwt_src.Channel.{ChannelCallbacks, tie, handle_event}
use dwt_src.EpollPoller.{Epoll}
use dwt_src.EventLoop.{enable_reading, disable_all, remove_channel}
use dwt_src.TcpConnection.{
  TcpConnection, Loop, k_disconnected, k_connected, is_disconnected, handle_write,
}

-- The callbacks that `TcpServer` sets: those of its user, and its own for a close.
pub record Callbacks (S : Type 0) : Type 0 where
  pub m_connection_callback : S → Outcome S
  pub m_message_callback : S → Outcome S
  pub m_close_callback : S → Outcome S

module _ {K W : Type 0} (system : Epoll K)
    (callbacks : Callbacks (TcpConnection × Loop K × W)) where
  unfoldable pub connect_established :
      TcpConnection × Loop K × W → Outcome (TcpConnection × Loop K × W)
  unfolding tie
  connect_established (c, l, w) = do
    (channel, l') ← enable_reading system (tie c.m_channel) l
    callbacks.m_connection_callback (record c { m_state = k_connected; m_channel = channel }, l', w)

  unfoldable pub handle_close : TcpConnection × Loop K × W → Outcome (TcpConnection × Loop K × W)
  handle_close (c, l, w) = do
    (channel, l') ← disable_all system c.m_channel l
    s ←
        callbacks.m_connection_callback
          (record c { m_state = k_disconnected; m_channel = channel }, l', w)
    callbacks.m_close_callback s

  -- `connectDestoryed`, whose test is for a connection that is disconnected already.
  unfoldable pub connect_destroyed :
      TcpConnection × Loop K × W → Outcome (TcpConnection × Loop K × W)
  connect_destroyed (c, l, w) =
      let disabled : Outcome (TcpConnection × Loop K × W) = do
        (channel, l') ← disable_all system c.m_channel l
        callbacks.m_connection_callback
            (record c { m_state = k_disconnected; m_channel = channel }, l', w)
      in do
        (c', l', w') ← (if is_disconnected c.m_state then disabled else ok (c, l, w))
        (channel, l'') ← remove_channel system c'.m_channel l'
        ok (record c' { m_channel = channel }, l'', w')

  -- `handleRead`, with the bytes that `readFd` received, or `none` for its failure, which is a fault of
  -- the buffer.
  unfoldable pub handle_read :
      Option Bytes → TcpConnection × Loop K × W → Outcome (TcpConnection × Loop K × W)
  unfolding handle_close
  handle_read none (c, l, w) = fault
  handle_read (some []) (c, l, w) = do
    input ← read_fd c.m_input_buffer (some [])
    handle_close (record c { m_input_buffer = input }, l, w)
  handle_read (some (byte ∷ bytes)) (c, l, w) = do
    input ← read_fd c.m_input_buffer (some (byte ∷ bytes))
    callbacks.m_message_callback (record c { m_input_buffer = input }, l, w)

  -- `handleError` reads the error of the socket and logs it.
  unfoldable pub handle_error : TcpConnection × Loop K × W → Outcome (TcpConnection × Loop K × W)
  handle_error s = ok s

  -- The callbacks that the constructor gives the channel, with what the reads and writes return.
  unfoldable pub channel_callbacks :
      Option Bytes → Option ℕ → ChannelCallbacks (TcpConnection × Loop K × W)
  unfolding handle_read handle_close handle_error
  channel_callbacks received result = record {
    m_read_callback = some (handle_read received);
    m_write_callback =
        some (λ (c, l, w). do (c', l') ← handle_write system result (c, l); ok (c', l', w));
    m_close_callback = some handle_close;
    m_error_callback = some handle_error;
  }

  -- The event of a connection that still lives.
  unfoldable pub connection_event :
      Option Bytes → Option ℕ → TcpConnection × Loop K × W → Outcome (TcpConnection × Loop K × W)
  unfolding channel_callbacks
  connection_event received result (c, l, w) =
      handle_event (channel_callbacks received result) true c.m_channel (c, l, w)
