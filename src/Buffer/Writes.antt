-- ===== src/Buffer/Writes.antt =====
-- Writes to the buffer: `append`, and `readFd` with the bytes that it received.
use mathlib.Core.List.{append_assoc}
use dwt_src.Prelude.{
  ◌≡◌, sym, subst, ap, ◌∙◌, ◌++◌, arith, Bool-cases, inl, inr, ltb, length, length-append, take,
  drop, length-drop, take-drop, take-all, length-take_le, Returns, returns, some, Returns-map,
}
use dwt_src.Bytes.{Bytes}
use dwt_src.Buffer.{
  Buffer, writable_bytes, copy_to, make_space, ensure_writable_bytes, append, read_fd,
}
use dwt_src.Buffer.Contents.{Shows, stored, writable, write_bytes-Shows, make_space-Shows}

module _ (b : Buffer) (s : Bytes) (v : Shows b s) where
  -- From a buffer whose readable bytes are `s`, `append` never writes past the array, and leaves a
  -- buffer whose readable bytes are `s` and then the new ones.
  pub append_lem : (source : Bytes) → Returns (λ b'. Shows b' (s ++ source)) (append b source)
  unfolding append ensure_writable_bytes
  append_lem source = elim (Bool-cases (ltb (writable_bytes b) (length source))) [
    | inl e ↦
        let (w, room) = make_space-Shows b s v (length source) (ground (arith, writable b s v)) in
        rw e (write_bytes-Shows (make_space b (length source)) s w source room)
    | inr e ↦ rw e (write_bytes-Shows b s v source (ground (arith, writable b s v)))
  ]

-- From a buffer whose readable bytes are `s`, a successful `readFd` never writes past the array, and
-- leaves a buffer whose readable bytes are `s` and then all that was received.
pub read_fd_lem :
    (b : Buffer) (s : Bytes) (received : Bytes)
    → Shows b s
    → Returns (λ b'. Shows b' (s ++ received)) (read_fd b (some received))
unfolding read_fd
read_fd_lem b s received v = elim (Bool-cases (ltb (length received) (writable_bytes b))) [
  | inl e ↦
      let whole = take-all (writable_bytes b) received (ground arith) in
      rw (e, whole)
        (returns (record {
          front = v.front;
          back = drop (length received) v.back;
          array = stored b s v received;
          reader = v.reader;
          writer = omega (arith, v.writer, length-append s received);
          prepend = v.prepend;
        }))
  | inr e ↦
      let filled : Bytes = take (writable_bytes b) received in
      let taken : length filled ≡ writable_bytes b =
        length-take_le (writable_bytes b) received (ground arith) in
      let array : Bytes = copy_to b.m_writer_idx filled b.m_buffer in
      let kept = stored b s v filled in
      let full : Buffer = record b { m_buffer = array; m_writer_idx = length array } in
      let w : Shows full (s ++ filled) = record {
        front = v.front;
        back = drop (length filled) v.back;
        array = kept;
        reader = v.reader;
        writer =
            ap length kept
            ∙ omega (
              arith,
              taken,
              writable b s v,
              length-append v.front ((s ++ filled) ++ drop (length filled) v.back),
              length-append (s ++ filled) (drop (length filled) v.back),
              length-drop (length filled) v.back,
            );
        prepend = v.prepend;
      } in
      rw e (
        Returns-map (append_lem full (s ++ filled) w (drop (writable_bytes b) received)) λ b' x.
          subst (Shows b')
            (append_assoc s filled (drop (writable_bytes b) received)
              ∙ ap (s ++◌) (sym (take-drop (writable_bytes b) received)))
            x)
]
