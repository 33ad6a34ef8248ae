-- ===== src/TcpConnection/Outputs.antt =====
-- `sendInLoop` and `handleWrite` of src/tcp/TcpConnection.cpp, on the stream of a connection.
use mathlib.Core.List.{append_assoc}
use dwt_src.Prelude.{
  append_empty, ℕ, zero, suc, ◌+◌, ◌-◌, ◌≤◌, ◌<◌, ◌≡◌, refl, sym, ap, ◌∙◌, true, false, not, ◌&&◌,
  some, [], ◌∷◌, ◌++◌, arith, ltb, ◌==◌, length, take, drop, length-drop, Returns, returns,
  Returns-bind, Returns-map, Returns-if,
}
use dwt_src.Bytes.{Bytes}
use dwt_src.Buffer.{readable_bytes}
use dwt_src.Buffer.Contents.{readable}
use dwt_src.Buffer.Writes.{append_lem}
use dwt_src.Channel.{is_writing}
use dwt_src.EpollPoller.{Epoll}
use dwt_src.TcpConnection.{
  TcpConnection, Loop, size_minus, size_modulus, write, buffer_rest, send_in_loop, queue_if,
  write_complete_callback,
}
use dwt_src.TcpConnection.Streams.{
  is_empty, slice_rest, size_minus_lem, Open, queue_if-IsPlaced, Waits, enable_writing_lem,
}

pub is_empty_of : (xs : Bytes) → (length xs == 0) ≡ is_empty xs
is_empty_of [] = refl
is_empty_of (x ∷ xs) = ground arith

append-not_empty : (xs ys : Bytes) → 0 < length ys → true ≡ not (is_empty (xs ++ ys))
append-not_empty [] [] some_bytes = absurd (omega arith)
append-not_empty [] (y ∷ ys) some_bytes = refl
append-not_empty (x ∷ xs) ys some_bytes = refl

length-take : (n : ℕ) (xs : Bytes) → length (take n xs) ≤ length xs
length-take zero xs = omega arith
length-take (suc n) [] = omega arith
length-take (suc n) (x ∷ xs) = omega (arith, length-take n xs)

pub take-rest : (n : ℕ) (xs : Bytes) → take n xs ++ drop (length (take n xs)) xs ≡ xs
take-rest zero xs = refl
take-rest (suc n) [] = refl
take-rest (suc n) (x ∷ xs) = ap (x ∷◌) (take-rest n xs)

pub no_bytes : (xs : Bytes) → length xs < 1 → xs ≡ []
no_bytes [] none_left = refl
no_bytes (x ∷ xs) none_left = absurd (omega arith)

take_whole : (n : ℕ) (xs : Bytes) → length xs < suc (length (take n xs)) → take n xs ≡ xs
take_whole zero xs whole = sym (no_bytes xs whole)
take_whole (suc n) [] whole = refl
take_whole (suc n) (x ∷ xs) whole = ap (x ∷◌) (take_whole n xs (omega arith))

module _ {K : Type 0} (system : Epoll K) where
  -- After the direct write, or without it: the rest of the message is behind what was pending.
  buffer_rest_lem :
      (nwrote remaining : ℕ) (message : Bytes) (c : TcpConnection) (l : Loop K) (pending : Bytes)
      → nwrote + remaining ≡ length message
      → 0 < remaining
      → Open system c l pending
      → Returns
          (λ (c', l').
            Open system c' l' (pending ++ drop nwrote message)
            × (c' ≡ record c { m_output_buffer = c'.m_output_buffer; m_channel = c'.m_channel }))
          (buffer_rest system nwrote remaining message (c, l))
  unfolding buffer_rest
  buffer_rest_lem nwrote remaining message c l pending whole some_left o =
      let placed = queue_if-IsPlaced system _ _ c.m_channel l o.placed in
      let waits =
        Returns-if {Post = Waits system} (is_writing c.m_channel) (λ e. returns (placed, e))
          (λ e. enable_writing_lem system c.m_channel _ placed) in
      rw (slice_rest nwrote remaining message whole) (
        Returns-bind (append_lem c.m_output_buffer pending o.shows (drop nwrote message))
          λ output shows. Returns-bind waits λ (channel, l') (placed', writes). returns (
            record {
              is_open = o.is_open;
              shows = shows;
              placed = placed';
              writing =
                  writes
                  ∙ append-not_empty pending (drop nwrote message)
                      (omega (arith, length-drop nwrote message));
            },
            refl,
          ))

  -- What became of a connection whose stream went on by the bytes `new`.
  pub record Streams (c : TcpConnection) (pending new : Bytes) (c' : TcpConnection) (l' : Loop K)
      : Type 0 where
    pub left : Bytes
    pub still : Open system c' l' left
    pub stream : c'.m_socket.accepted ++ left ≡ (c.m_socket.accepted ++ pending) ++ new
    pub state : c'.m_state ≡ c.m_state
    pub shut : c'.m_socket.write_shut ≡ c.m_socket.write_shut

  -- The direct write of `sendInLoop`, with nothing pending.
  direct_lem :
      (n : ℕ) (message : Bytes) (c : TcpConnection) (l : Loop K)
      → length message < size_modulus
      → Open system c l []
      → Returns
          (λ (c', l'). Streams c [] message c' l')
          (send_in_loop system (some n) message (c, l))
  unfolding send_in_loop
  direct_lem n message c l below o =
      let nwrote = length (take n message) in
      let fewer : nwrote ≤ length message = length-take n message in
      let remaining : size_minus (length message) nwrote ≡ length message - nwrote =
        size_minus_lem (length message) nwrote fewer below in
      let nothing : (readable_bytes c.m_output_buffer == 0) ≡ true =
        ground (arith, readable c.m_output_buffer [] o.shows) in
      let is_direct : (not (is_writing c.m_channel) && (readable_bytes c.m_output_buffer == 0))
          ≡ true =
        ap (λ w. not w && (readable_bytes c.m_output_buffer == 0)) o.writing ∙ nothing in
      let written : TcpConnection = record c { m_socket = write (some n) message c.m_socket } in
      let completed =
        queue_if ((size_minus (length message) nwrote == 0) && c.has_write_complete_callback)
          (write_complete_callback c.address) l in
      let o' : Open system written completed [] = record {
        is_open = o.is_open;
        shows = o.shows;
        placed = queue_if-IsPlaced system _ _ c.m_channel l o.placed;
        writing = o.writing;
      } in
      let front = ap (λ xs. xs ++ message) (sym (append_empty c.m_socket.accepted)) in
      rw (o.is_open, is_direct)
        (Returns-if (ltb 0 (size_minus (length message) nwrote))
          (λ some_left.
            Returns-map
              (buffer_rest_lem nwrote (size_minus (length message) nwrote) message written completed
                [] (omega (arith, remaining, fewer)) (ground arith) o')
              λ (c', l') (still, same). record {
                left = drop nwrote message;
                still = still;
                stream =
                    ap (λ (x : TcpConnection). x.m_socket.accepted ++ drop nwrote message) same
                    ∙ append_assoc c.m_socket.accepted (take n message) (drop nwrote message)
                    ∙ ap (c.m_socket.accepted ++◌) (take-rest n message)
                    ∙ front;
                state = ap (λ (x : TcpConnection). x.m_state) same;
                shut = ap (λ (x : TcpConnection). x.m_socket.write_shut) same;
              })
          (λ none_left. returns (record {
            left = [];
            still = o';
            stream =
                append_empty (c.m_socket.accepted ++ take n message)
                ∙ ap (c.m_socket.accepted ++◌)
                    (take_whole n message (ground (arith, remaining, fewer)))
                ∙ front;
            state = refl;
            shut = refl;
          })))

  -- From an open connection, `sendInLoop` with any write that does not fail returns; the bytes that
  -- the system accepted and those left in the output buffer, together, have grown by the message, and
  -- the connection is still open, in the same state.
  pub send_in_loop_lem :
      (n : ℕ) (message : Bytes) (c : TcpConnection) (l : Loop K) (pending : Bytes)
      → length message < size_modulus
      → Open system c l pending
      → Returns
          (λ (c', l'). Streams c pending message c' l')
          (send_in_loop system (some n) message (c, l))
  unfolding send_in_loop
  send_in_loop_lem n message c l [] below o = direct_lem n message c l below o
  send_in_loop_lem n message c l (byte ∷ pending) below o =
      let is_buffered : (not (is_writing c.m_channel) && (readable_bytes c.m_output_buffer == 0))
          ≡ false =
        ap (λ w. not w && (readable_bytes c.m_output_buffer == 0)) o.writing in
      rw (o.is_open, is_buffered)
        (Returns-if (ltb 0 (length message))
          (λ some_left.
            Returns-map
              (buffer_rest_lem 0 (length message) message c l (byte ∷ pending) (omega arith)
                (ground arith) o)
              λ (c', l') (still, same). record {
                left = (byte ∷ pending) ++ message;
                still = still;
                stream =
                    ap (λ (x : TcpConnection). x.m_socket.accepted ++ ((byte ∷ pending) ++ message))
                      same
                    ∙ sym (append_assoc c.m_socket.accepted (byte ∷ pending) message);
                state = ap (λ (x : TcpConnection). x.m_state) same;
                shut = ap (λ (x : TcpConnection). x.m_socket.write_shut) same;
              })
          (λ none_left. returns (record {
            left = byte ∷ pending;
            still = o;
            stream =
                sym (append_empty (c.m_socket.accepted ++ (byte ∷ pending)))
                ∙ ap ((c.m_socket.accepted ++ (byte ∷ pending)) ++◌)
                    (sym (no_bytes message (ground arith)));
            state = refl;
            shut = refl;
          })))
