-- ===== src/TcpConnection/Failures.antt =====
-- Failed writes of src/tcp/TcpConnection.cpp: the -1 of `write` is a `size_t` there.
use dwt_src.Prelude.{
  append_empty, suc, ◌<◌, ◌+◌, ◌-◌, ◌≡◌, refl, sym, ap, subst, ◌∙◌, true, false, not, ◌&&◌, none,
  [], ◌∷◌, ◌++◌, arith, ltb, leb, ◌==◌, length, fault, Returns, returns, Returns-bind,
}
use dwt_src.Bytes.{Bytes}
use dwt_src.Buffer.{readable_bytes, retrieve}
use dwt_src.Buffer.Contents.{Shows, drop-all, readable, retrieve_lem}
use dwt_src.Channel.{is_writing}
use dwt_src.EpollPoller.{Epoll}
use dwt_src.TcpConnection.{
  TcpConnection, Loop, size_modulus, size_minus, send_in_loop, buffer_rest, handle_write, queue_if,
  write_complete_callback,
}
use dwt_src.TcpConnection.Streams.{Open, disable_writing_lem, queue_if-IsPlaced}
use dwt_src.TcpConnection.Drains.{shut_drained}

module _ {K : Type 0} (system : Epoll K) where
  send_fails :
      (message : Bytes) (c : TcpConnection) (l : Loop K)
      → length message < size_modulus - 1
      → Open system c l []
      → send_in_loop system none message (c, l) ≡ fault
  unfolding send_in_loop buffer_rest
  send_fails message c l short o =
      let remaining : size_minus (length message) (size_modulus - 1) ≡ suc (length message) =
        omega arith in
      let is_direct : (not (is_writing c.m_channel) && (readable_bytes c.m_output_buffer == 0))
          ≡ true =
        ap (λ w. not w && (readable_bytes c.m_output_buffer == 0)) o.writing
        ∙ ap (◌== 0) (readable c.m_output_buffer [] o.shows) in
      let some_left : ltb 0 (suc (length message)) ≡ true = ground arith in
      let outside : leb (size_modulus - 1 + suc (length message)) (length message) ≡ false =
        ground arith in
      rw (o.is_open, is_direct, remaining, some_left, outside) refl

  write_fails :
      (c : TcpConnection) (l : Loop K) (pending : Bytes)
      → length pending < size_modulus
      → Open system c l pending
      → Returns
          (λ (c', l'). Open system c' l' [] × (c'.m_socket.accepted ≡ c.m_socket.accepted))
          (handle_write system none (c, l))
  unfolding handle_write
  write_fails c l [] below o = rw o.writing (returns (o, refl))
  write_fails c l (byte ∷ pending) below o =
      let n = size_modulus - 1 in
      let output = retrieve c.m_output_buffer n in
      let shows : Shows output [] =
        subst (Shows output) (drop-all n (byte ∷ pending) (omega arith))
          (retrieve_lem c.m_output_buffer (byte ∷ pending) o.shows n) in
      let is_drained : (readable_bytes output == 0) ≡ true =
        ap (◌== 0) (readable output [] shows) in
      let written : TcpConnection = record c {
        m_socket = record c.m_socket { accepted = c.m_socket.accepted ++ [] };
        m_output_buffer = output;
      } in
      rw (o.writing, is_drained)
        (Returns-bind (disable_writing_lem system c.m_channel l o.placed)
          λ (channel, l') (placed, silent). returns (
            subst
              (λ c'.
                Open system c'
                  (queue_if c.has_write_complete_callback (write_complete_callback c.address) l') []
                × (c'.m_socket.accepted ≡ c.m_socket.accepted))
              (sym (shut_drained system (record written { m_channel = channel }) silent))
              (
                record {
                  is_open = o.is_open;
                  shows = shows;
                  placed =
                      queue_if-IsPlaced system c.has_write_complete_callback
                        (write_complete_callback c.address) channel l' placed;
                  writing = silent;
                },
                append_empty c.m_socket.accepted,
              )))

  -- What a failed write does to an open connection, with sizes that fit a `size_t`: with nothing
  -- pending, `sendInLoop` reads outside of the message; `handleWrite` drops all that is pending, of
  -- which the system accepted nothing, and leaves an open connection.
  pub failed_write_lem :
      (message : Bytes) (c : TcpConnection) (l : Loop K) (pending : Bytes)
      → length message < size_modulus - 1
      → length pending < size_modulus
      → Open system c l pending
      → (pending ≡ [] → send_in_loop system none message (c, l) ≡ fault)
        × Returns
            (λ (c', l'). Open system c' l' [] × (c'.m_socket.accepted ≡ c.m_socket.accepted))
            (handle_write system none (c, l))
  failed_write_lem message c l pending short below o = (
    λ nothing. send_fails message c l short (subst (Open system c l) nothing o),
    write_fails c l pending below o,
  )
