-- ===== src/TcpConnection.antt =====
-- src/tcp/TcpConnection.h, src/tcp/TcpConnection.cpp and src/tcp/Callbacks.h: a connection, the loop
-- that it runs in. The socket stands for the system's side: the bytes that it accepted, and whether
-- the write side was shut down. What a `write` or a `readv` returns is an argument.
pub mod Streams
pub mod Outputs
pub mod Handlers
pub mod Drains
pub mod Acts
pub mod Runs
pub mod Closing
pub mod Failures
pub mod Starting
pub mod Soundness
use dwt_src.Prelude.{
  ℕ, ◌+◌, ◌-◌, ◌*◌, ◌%◌, Bool, true, false, not, ◌&&◌, ◌||◌, Option, none, some, List, [], ◌∷◌,
  ◌++◌, ltb, leb, ◌==◌, if◌then◌else◌, length, take, drop, Outcome, ok, fault, ◌>>=◌,
}
use dwt_src.Bytes.{Bytes}
use dwt_src.Buffer.{Buffer, readable_bytes, peek, retrieve, append, read_fd}
use dwt_src.Channel.{Channel, ChannelCallbacks, new_channel, tie, is_writing}
use dwt_src.EpollPoller.{Epoll}
use dwt_src.EventLoop.{
  EventLoop, queue_in_loop, enable_reading, enable_writing, disable_writing, disable_all,
  remove_channel,
}

pub data StateE : Type 0 where
  k_disconnected k_connecting k_connected k_disconnecting : StateE

abbrev pub is_disconnected : StateE → Bool
is_disconnected k_disconnected = true
is_disconnected state = false

abbrev pub is_connected : StateE → Bool
is_connected k_connected = true
is_connected state = false

abbrev pub is_disconnecting : StateE → Bool
is_disconnecting k_disconnecting = true
is_disconnecting state = false

-- The functions bound to a connection, by its address, that are queued in a loop.
pub data Functor : Type 0 where
  write_complete_callback shutdown_functor established_functor destroyed_functor : ℕ → Functor
  high_water_mark_callback : ℕ → ℕ → Functor
  send_functor : ℕ → Bytes → Functor
  other_functor : ℕ → Functor

pub record Socket : Type 0 where
  pub accepted : Bytes
  pub write_shut : Bool

pub record TcpConnection : Type 0 where
  pub address : ℕ
  pub m_name : Bytes
  pub m_state : StateE
  pub m_socket : Socket
  pub m_channel : Channel
  pub has_write_complete_callback : Bool
  pub has_high_water_mark_callback : Bool
  pub m_high_water_mark : ℕ
  pub m_input_buffer : Buffer
  pub m_output_buffer : Buffer

unfoldable pub new_connection : ℕ → Bytes → ℕ → ℕ → TcpConnection
unfolding new_channel
new_connection address name channel_address sockfd = record {
  address = address;
  m_name = name;
  m_state = k_connecting;
  m_socket = record { accepted = []; write_shut = false };
  m_channel = new_channel channel_address sockfd;
  has_write_complete_callback = false;
  has_high_water_mark_callback = false;
  m_high_water_mark = 64 * 1024 * 1024;
  m_input_buffer = dwt_src.Buffer.init;
  m_output_buffer = dwt_src.Buffer.init;
}

-- `size_t`
abbrev pub size_modulus : ℕ
size_modulus = 18446744073709551616

-- `a - b` of two values of `size_t`
abbrev pub size_minus : ℕ → ℕ → ℕ
size_minus a b = (a + size_modulus - b) % size_modulus

-- `write`: the bytes that the system takes of those it is offered, no more than the number, or -1.
abbrev pub taken : Option ℕ → Bytes → Bytes
taken none offered = []
taken (some n) offered = take n offered

-- What `write` returns, as a `size_t`.
abbrev pub wrote : Option ℕ → Bytes → ℕ
wrote none offered = size_modulus - 1
wrote (some n) offered = length (take n offered)

abbrev pub write : Option ℕ → Bytes → Socket → Socket
write result offered socket = record socket { accepted = socket.accepted ++ taken result offered }

-- The `len` bytes of `message` from `from` on, which are to lie inside it.
abbrev pub slice : ℕ → ℕ → Bytes → Outcome Bytes
slice from len message =
    if leb (from + len) (length message) then ok (take len (drop from message)) else fault

abbrev pub Loop : Type 0 → Type 0
Loop K = EventLoop K Functor

-- `queueInLoop` of the loop's own thread, when a test holds.
abbrev pub queue_if : {K : Type 0} → Bool → Functor → Loop K → Loop K
queue_if false func l = l
queue_if true func l = queue_in_loop true func l

unfoldable pub append_async :
    {K : Type 0} → Bool → Functor → TcpConnection × Loop K → TcpConnection × Loop K
append_async is_in_loop_thread func (c, l) = (c, queue_in_loop is_in_loop_thread func l)

unfoldable pub shutdown_in_loop : TcpConnection → TcpConnection
shutdown_in_loop c =
    if is_writing c.m_channel
    then c
    else record c { m_socket = record c.m_socket { write_shut = true } }

unfoldable pub shutdown : {K : Type 0} → Bool → TcpConnection × Loop K → TcpConnection × Loop K
unfolding shutdown_in_loop
shutdown is_in_loop_thread (c, l) =
    let disconnecting : TcpConnection = record c { m_state = k_disconnecting } in
    if is_connected c.m_state
    then (if is_in_loop_thread
        then (shutdown_in_loop disconnecting, l)
        else (disconnecting, queue_in_loop false (shutdown_functor c.address) l))
    else (c, l)

module _ {K : Type 0} (system : Epoll K) where
  -- The part of `sendInLoop` behind the direct write.
  unfoldable pub buffer_rest :
      ℕ → ℕ → Bytes → TcpConnection × Loop K → Outcome (TcpConnection × Loop K)
  buffer_rest nwrote remaining message (c, l) =
      let old_len = readable_bytes c.m_output_buffer in
      let is_high =
        leb c.m_high_water_mark (old_len + remaining)
        && ltb old_len c.m_high_water_mark
        && c.has_high_water_mark_callback in
      let l' = queue_if is_high (high_water_mark_callback c.address (old_len + remaining)) l in
      do
        rest ← slice nwrote remaining message
        output ← append c.m_output_buffer rest
        (channel, l'') ←
            (if is_writing c.m_channel
              then ok (c.m_channel, l')
              else enable_writing system c.m_channel l')
        ok (record c { m_output_buffer = output; m_channel = channel }, l'')

  -- `sendInLoop`. The number of bytes written is a `size_t`, so that the test for a negative one never
  -- holds and a failed write goes the way of the others.
  unfoldable pub send_in_loop :
      Option ℕ → Bytes → TcpConnection × Loop K → Outcome (TcpConnection × Loop K)
  unfolding buffer_rest
  send_in_loop result message (c, l) =
      let len = length message in
      let nwrote = wrote result message in
      let remaining = size_minus len nwrote in
      let written : TcpConnection = record c { m_socket = write result message c.m_socket } in
      let completed =
        queue_if ((remaining == 0) && c.has_write_complete_callback)
          (write_complete_callback c.address) l in
      let direct =
        if ltb 0 remaining
        then buffer_rest nwrote remaining message (written, completed)
        else ok (written, completed) in
      let buffered = if ltb 0 len then buffer_rest 0 len message (c, l) else ok (c, l) in
      if is_disconnected c.m_state
      then ok (c, l)
      else (if not (is_writing c.m_channel) && (readable_bytes c.m_output_buffer == 0)
          then direct
          else buffered)

  unfoldable pub send :
      Bool → Option ℕ → Bytes → TcpConnection × Loop K → Outcome (TcpConnection × Loop K)
  unfolding send_in_loop
  send is_in_loop_thread result message (c, l) =
      if is_connected c.m_state
      then (if is_in_loop_thread
          then send_in_loop result message (c, l)
          else ok (c, queue_in_loop false (send_functor c.address message) l))
      else ok (c, l)

  -- `handleWrite`; a failed write of `writeFd` is a number of bytes as well.
  unfoldable pub handle_write : Option ℕ → TcpConnection × Loop K → Outcome (TcpConnection × Loop K)
  unfolding shutdown_in_loop
  handle_write result (c, l) =
      let offered = peek c.m_output_buffer (readable_bytes c.m_output_buffer) in
      let n = wrote result offered in
      let output = retrieve c.m_output_buffer n in
      let written : TcpConnection = record c {
        m_socket = write result offered c.m_socket;
        m_output_buffer = output;
      } in
      let drained : Outcome (TcpConnection × Loop K) = do
        (channel, l') ← disable_writing system c.m_channel l
        let silent : TcpConnection = record written { m_channel = channel }
        let completed =
            queue_if c.has_write_complete_callback (write_complete_callback c.address) l'
        ok (if is_disconnecting c.m_state then shutdown_in_loop silent else silent, completed)
      in let progressed = if readable_bytes output == 0 then drained else ok (written, l) in
        if is_writing c.m_channel then (if ltb 0 n then progressed else ok (c, l)) else ok (c, l)
