-- ===== src/TcpConnection/Drains.antt =====
-- `handleWrite` and `shutdown` of src/tcp/TcpConnection.cpp on an open connection.
use dwt_src.Prelude.{
  append_empty, ℕ, zero, suc, ◌≡◌, refl, sym, ap, subst, ◌∙◌, Bool, true, false, not, ◌&&◌, ◌||◌,
  some, [], ◌∷◌, ◌++◌, arith, inl, inr, Bool-cases, ltb, ◌==◌, if◌then◌else◌, length, take, drop,
  Returns, returns, Returns-bind,
}
use dwt_src.Bytes.{Bytes}
use dwt_src.Buffer.{readable_bytes, peek, retrieve}
use dwt_src.Buffer.Contents.{Shows, readable, shown, retrieve_lem}
use dwt_src.Channel.{is_writing}
use dwt_src.EpollPoller.{Epoll}
use dwt_src.TcpConnection.{
  TcpConnection, Loop, is_disconnecting, is_connected, k_disconnecting, handle_write,
  shutdown_in_loop, shutdown, queue_if, write_complete_callback,
}
use dwt_src.TcpConnection.Streams.{is_empty, Open, queue_if-IsPlaced, disable_writing_lem}
use dwt_src.TcpConnection.Outputs.{is_empty_of}

pub drop_none : (n : ℕ) → drop {A = ℕ} n [] ≡ []
drop_none zero = refl
drop_none (suc n) = refl

take_none : (n : ℕ) → take {A = ℕ} n [] ≡ []
take_none zero = refl
take_none (suc n) = refl

drop-taken : (n : ℕ) (xs : Bytes) → drop (length (take n xs)) xs ≡ drop n xs
drop-taken zero xs = refl
drop-taken (suc n) [] = refl
drop-taken (suc n) (x ∷ xs) = drop-taken n xs

-- Whether the write side is shut after a write of `n` bytes of `pending`: when it was, or when the
-- last bytes of a connection that is to be closed were written.
abbrev pub shut_after : ℕ → Bytes → TcpConnection → Bool
shut_after n pending c =
    (not (is_empty pending) && is_empty (drop n pending) && is_disconnecting c.m_state)
    || c.m_socket.write_shut

module _ {K : Type 0} (system : Epoll K) where
  -- An open connection from which the system took the first `n` bytes pending.
  pub record Wrote (n : ℕ) (c : TcpConnection) (pending : Bytes) (c' : TcpConnection) (l' : Loop K)
      : Type 0 where
    pub still : Open system c' l' (drop n pending)
    pub accepted : c'.m_socket.accepted ≡ c.m_socket.accepted ++ take n pending
    pub state : c'.m_state ≡ c.m_state
    pub input : c'.m_input_buffer ≡ c.m_input_buffer
    pub shut : c'.m_socket.write_shut ≡ shut_after n pending c

  pub shut_drained :
      (c : TcpConnection)
      → is_writing c.m_channel ≡ false
      → (if is_disconnecting c.m_state then shutdown_in_loop c else c) ≡ record c {
        m_socket = record c.m_socket {
          write_shut = is_disconnecting c.m_state || c.m_socket.write_shut;
        };
      }
  unfolding shutdown_in_loop
  shut_drained c silent = elim (Bool-cases (is_disconnecting c.m_state)) [
    | inl e ↦ rw (e, silent) refl
    | inr e ↦ rw e refl
  ]

  -- From an open connection, `handleWrite` with any write that does not fail returns; the bytes that
  -- the system took go from the front of the pending ones to the end of the accepted ones, and the
  -- write side is shut down when the last ones of a connection that is to be closed were written.
  pub handle_write_lem :
      (n : ℕ) (c : TcpConnection) (l : Loop K) (pending : Bytes)
      → Open system c l pending
      → Returns (λ (c', l'). Wrote n c pending c' l') (handle_write system (some n) (c, l))
  unfolding handle_write
  handle_write_lem n c l [] o = rw o.writing (
      returns (record {
        still = subst (Open system c l) (sym (drop_none n)) o;
        accepted =
            sym (append_empty c.m_socket.accepted)
            ∙ ap (c.m_socket.accepted ++◌) (sym (take_none n));
        state = refl;
        input = refl;
        shut = refl;
      }))
  handle_write_lem zero c l (byte ∷ pending) o = rw o.writing (
      returns (record {
        still = o;
        accepted = sym (append_empty c.m_socket.accepted);
        state = refl;
        input = refl;
        shut = refl;
      }))
  handle_write_lem (suc n) c l (byte ∷ pending) o =
      let offered : peek c.m_output_buffer (readable_bytes c.m_output_buffer) ≡ byte ∷ pending =
        shown c.m_output_buffer (byte ∷ pending) o.shows in
      let k = length (take (suc n) (byte ∷ pending)) in
      let output = retrieve c.m_output_buffer k in
      let shows : Shows output (drop n pending) =
        subst (Shows output) (drop-taken (suc n) (byte ∷ pending))
          (retrieve_lem c.m_output_buffer (byte ∷ pending) o.shows k) in
      let is_drained : (readable_bytes output == 0) ≡ is_empty (drop n pending) =
        ap (◌== 0) (readable output (drop n pending) shows) ∙ is_empty_of (drop n pending) in
      let some_taken : ltb 0 k ≡ true = ground arith in
      let written : TcpConnection = record c {
        m_socket = record c.m_socket {
          accepted = c.m_socket.accepted ++ take (suc n) (byte ∷ pending);
        };
        m_output_buffer = output;
      } in
      rw (o.writing, offered, some_taken, is_drained)
        (elim (Bool-cases (is_empty (drop n pending))) [
          | inl e ↦ rw e (
              Returns-bind (disable_writing_lem system c.m_channel l o.placed)
                λ (channel, l') (placed, silent). returns (
                  subst
                    (λ c'. Wrote (suc n) c (byte ∷ pending) c' (
                      queue_if c.has_write_complete_callback (write_complete_callback c.address)
                        l'))
                    (sym (shut_drained (record written { m_channel = channel }) silent))
                    record {
                      still = record {
                        is_open = o.is_open;
                        shows = shows;
                        placed =
                            queue_if-IsPlaced system c.has_write_complete_callback
                              (write_complete_callback c.address) channel l' placed;
                        writing = silent ∙ ap not (sym e);
                      };
                      accepted = refl;
                      state = refl;
                      input = refl;
                      shut =
                          ap (λ b. (b && is_disconnecting c.m_state) || c.m_socket.write_shut)
                            (sym e);
                    }))
          | inr e ↦ rw e (
              returns (record {
                still = record {
                  is_open = o.is_open;
                  shows = shows;
                  placed = o.placed;
                  writing = o.writing ∙ ap not (sym e);
                };
                accepted = refl;
                state = refl;
                input = refl;
                shut = ap (λ b. (b && is_disconnecting c.m_state) || c.m_socket.write_shut) (sym e);
              }))
        ])

  -- From an open and connected connection, `shutdown` in the loop's thread starts to disconnect and
  -- leaves the stream alone; it shuts the write side down at once just when nothing is pending.
  pub shutdown_lem :
      (c : TcpConnection) (l : Loop K) (pending : Bytes)
      → Open system c l pending
      → is_connected c.m_state ≡ true
      → shutdown true (c, l) ≡ (
        record c {
          m_state = k_disconnecting;
          m_socket = record c.m_socket { write_shut = is_empty pending || c.m_socket.write_shut };
        },
        l,
      )
  unfolding shutdown shutdown_in_loop
  shutdown_lem c l [] o connected = rw (connected, o.writing) refl
  shutdown_lem c l (byte ∷ pending) o connected = rw (connected, o.writing) refl
