-- ===== src/Buffer/Contents.antt =====
-- The buffer of src/tcp/Buffer.h as a queue of bytes, and its reads.
use mathlib.Core.List.{append_assoc}
use dwt_src.Prelude.{
  ℕ, zero, suc, ◌+◌, ◌-◌, ◌≤◌, ◌<◌, ◌≡◌, refl, sym, subst, ap, ◌∙◌, true, [], ◌∷◌, ◌++◌, arith,
  Bool-cases, inl, inr, ltb, leb, length, length-append, take, drop, take-front, drop-front,
  drop-past, length-drop, take-drop, take-all, replicate, length-replicate, length-take_le, Returns,
  returns,
}
use dwt_src.Bytes.{Bytes}
use dwt_src.Buffer.{
  Buffer, cheap_prepend, initial_size, init, readable_bytes, writable_bytes, peek, retrieve,
  retrieve_all, retrieve_as_string, retrieve_all_as_string, copy_to, make_space, write_bytes,
}

pub drop-all : (n : ℕ) (xs : Bytes) → length xs ≤ n → drop n xs ≡ []
drop-all zero [] h = refl
drop-all (suc n) [] h = refl
drop-all zero (x ∷ xs) h = absurd (omega arith)
drop-all (suc n) (x ∷ xs) h = drop-all n xs (omega arith)

take-short : (n : ℕ) (xs ys : Bytes) → n ≤ length xs → take n (xs ++ ys) ≡ take n xs
take-short zero xs ys h = refl
take-short (suc n) [] ys h = absurd (omega arith)
take-short (suc n) (x ∷ xs) ys h = ap (◌∷◌ x) (take-short n xs ys (omega arith))

-- The readable bytes of `b` are `s`.
pub record Shows (b : Buffer) (s : Bytes) : Type 0 where
  pub front : Bytes
  pub back : Bytes
  pub array : b.m_buffer ≡ front ++ (s ++ back)
  pub reader : b.m_reader_idx ≡ length front
  pub writer : b.m_writer_idx ≡ length front + length s
  pub prepend : cheap_prepend ≤ length front

pub init-Shows : Shows init []
unfolding init
init-Shows = record {
  front = replicate cheap_prepend 0;
  back = replicate initial_size 0;
  array = refl;
  reader = refl;
  writer = refl;
  prepend = omega arith;
}

module _ (b : Buffer) (s : Bytes) (v : Shows b s) where
  size : length b.m_buffer ≡ length v.front + length s + length v.back
  size =
      ap length v.array ∙ omega (arith, length-append v.front (s ++ v.back), length-append s v.back)

  pub readable : readable_bytes b ≡ length s
  readable = omega (arith, v.reader, v.writer)

  pub writable : writable_bytes b ≡ length v.back
  writable = omega (arith, size, v.writer)

  peek_lem : (n : ℕ) → peek b n ≡ take n (s ++ v.back)
  peek_lem n =
      ap (λ (xs : Bytes). take n (drop b.m_reader_idx xs)) v.array
      ∙ ap (λ k. take n (drop k (v.front ++ (s ++ v.back)))) v.reader
      ∙ ap (take n) (drop-front v.front (s ++ v.back))

  -- What can be read is `s`.
  pub shown : peek b (readable_bytes b) ≡ s
  shown =
      peek_lem (readable_bytes b) ∙ ap (λ k. take k (s ++ v.back)) readable ∙ take-front s v.back

  -- Bytes stored from the writer's index on.
  pub stored :
      (source : Bytes)
      → copy_to b.m_writer_idx source b.m_buffer
        ≡ v.front ++ ((s ++ source) ++ drop (length source) v.back)
  stored source =
      let pre = v.front ++ s in
      let whole : b.m_buffer ≡ pre ++ v.back = v.array ∙ sym (append_assoc v.front s v.back) in
      let end : b.m_writer_idx ≡ length pre = omega (arith, v.writer, length-append v.front s) in
      rw (whole, end, take-front pre v.back, drop-past pre v.back (length source))
        (append_assoc v.front s (source ++ drop (length source) v.back)
          ∙ ap (v.front ++◌) (sym (append_assoc s source (drop (length source) v.back))))

  -- A write that fits.
  pub write_bytes-Shows :
      (source : Bytes)
      → length source ≤ length v.back
      → Returns (λ b'. Shows b' (s ++ source)) (write_bytes b source)
  unfolding write_bytes
  write_bytes-Shows source fits =
      let room : leb (length source) (writable_bytes b) ≡ true = ground (arith, writable) in
      rw room (
        returns (record {
          front = v.front;
          back = drop (length source) v.back;
          array = stored source;
          reader = v.reader;
          writer = omega (arith, v.writer, length-append s source);
          prepend = v.prepend;
        }))

  retrieve_all-Shows : Shows (retrieve_all b) []
  unfolding retrieve_all
  retrieve_all-Shows =
      let long : cheap_prepend < suc (length b.m_buffer) = omega (arith, size, v.prepend) in
      record {
        front = take cheap_prepend b.m_buffer;
        back = drop cheap_prepend b.m_buffer;
        array = take-drop cheap_prepend b.m_buffer;
        reader = sym (length-take_le cheap_prepend b.m_buffer long);
        writer = omega (arith, length-take_le cheap_prepend b.m_buffer long);
        prepend = omega (arith, length-take_le cheap_prepend b.m_buffer long);
      }

  -- From a buffer whose readable bytes are `s`, `retrieve` leaves those after the first `n`.
  pub retrieve_lem : (n : ℕ) → Shows (retrieve b n) (drop n s)
  unfolding retrieve
  retrieve_lem n = elim (Bool-cases (ltb n (readable_bytes b))) [
    | inl e ↦
        let long : n < suc (length s) = ground (arith, readable) in
        rw e (record {
          front = v.front ++ take n s;
          back = v.back;
          array =
              v.array
              ∙ ap (λ (xs : Bytes). v.front ++ (xs ++ v.back)) (take-drop n s)
              ∙ ap (v.front ++◌) (append_assoc (take n s) (drop n s) v.back)
              ∙ sym (append_assoc v.front (take n s) (drop n s ++ v.back));
          reader =
              omega (arith, v.reader, length-append v.front (take n s), length-take_le n s long);
          writer = omega (
            arith,
            v.writer,
            length-append v.front (take n s),
            length-take_le n s long,
            length-drop n s,
          );
          prepend = omega (arith, v.prepend, length-append v.front (take n s));
        })
    | inr e ↦
        let none_left : drop n s ≡ [] = drop-all n s (ground (arith, readable)) in
        rw (e, none_left) retrieve_all-Shows
  ]

  pub make_space-Shows :
      (len : ℕ) → length v.back < len → (w : Shows (make_space b len) s) × (len ≤ length w.back)
  unfolding make_space
  make_space-Shows len short =
      elim (Bool-cases (ltb (writable_bytes b + b.m_reader_idx) (len + cheap_prepend))) [
        | inl e ↦
            let zeros : Bytes = replicate (b.m_writer_idx + len - length b.m_buffer) 0 in
            rw e (
              record {
                front = v.front;
                back = v.back ++ zeros;
                array =
                    ap (λ (xs : Bytes). xs ++ zeros)
                      (take-all (b.m_writer_idx + len) b.m_buffer (omega (arith, size, v.writer)))
                    ∙ ap (λ (xs : Bytes). xs ++ zeros) v.array
                    ∙ append_assoc v.front (s ++ v.back) zeros
                    ∙ ap (v.front ++◌) (append_assoc s v.back zeros);
                reader = v.reader;
                writer = v.writer;
                prepend = v.prepend;
              },
              omega (
                arith,
                size,
                v.writer,
                length-append v.back (replicate (b.m_writer_idx + len - length b.m_buffer) 0),
                length-replicate {A = ℕ} (b.m_writer_idx + len - length b.m_buffer) 0,
              ),
            )
        | inr e ↦
            let long = length-take_le cheap_prepend b.m_buffer (omega (arith, size, v.prepend)) in
            let room : len + cheap_prepend ≤ writable_bytes b + b.m_reader_idx = ground arith in
            rw (e, shown)
              (
                record {
                  front = take cheap_prepend b.m_buffer;
                  back = drop (cheap_prepend + length s) b.m_buffer;
                  array = refl;
                  reader = sym long;
                  writer = omega (arith, long, readable);
                  prepend = omega (arith, long);
                },
                omega (
                  arith,
                  room,
                  size,
                  v.reader,
                  v.writer,
                  length-drop (cheap_prepend + length s) b.m_buffer,
                ),
              )
      ]

  -- `retrieveAsString`, asked for no more than is readable, returns the first bytes and leaves the
  -- rest; `retrieveAllAsString` returns all and leaves an empty buffer.
  pub retrieve_as_string_lem :
      (n : ℕ)
      → n ≤ length s
      → ((retrieve_as_string b n).1 ≡ take n s)
        × Shows (retrieve_as_string b n).0 (drop n s)
        × ((retrieve_all_as_string b).1 ≡ s)
        × Shows (retrieve_all_as_string b).0 []
  unfolding retrieve_as_string retrieve_all_as_string
  retrieve_as_string_lem n p = (
    peek_lem n ∙ take-short n s v.back p,
    retrieve_lem n,
    shown,
    subst (Shows (retrieve b (readable_bytes b)))
        (drop-all (readable_bytes b) s (omega (arith, readable))) (retrieve_lem (readable_bytes b)),
  )
