-- ===== src/Buffer.antt =====
-- src/tcp/Buffer.h and src/tcp/Buffer.cpp: the buffer of a connection, an array with the index of the
-- next byte to read and that of the next to write. A write past the end of the array is a fault.
pub mod Contents
pub mod Writes
use dwt_src.Prelude.{
  ℕ, suc, ◌+◌, ◌-◌, Bool, true, false, Option, none, some, List, [], ◌∷◌, ◌++◌, ltb, leb,
  if◌then◌else◌, length, take, drop, replicate, Outcome, ok, fault, ◌>>=◌,
}
use dwt_src.Bytes.{Bytes}

pub record Buffer : Type 0 where
  pub m_buffer : Bytes
  pub m_reader_idx : ℕ
  pub m_writer_idx : ℕ

abbrev pub cheap_prepend : ℕ
cheap_prepend = 8

abbrev pub initial_size : ℕ
initial_size = 1024

-- The constructor, which does not use its argument.
unfoldable pub init : Buffer
init = record {
  m_buffer = replicate (cheap_prepend + initial_size) 0;
  m_reader_idx = cheap_prepend;
  m_writer_idx = cheap_prepend;
}

abbrev pub readable_bytes : Buffer → ℕ
readable_bytes b = b.m_writer_idx - b.m_reader_idx

abbrev pub writable_bytes : Buffer → ℕ
writable_bytes b = length b.m_buffer - b.m_writer_idx

abbrev pub prependable_bytes : Buffer → ℕ
prependable_bytes b = b.m_reader_idx

-- The first `len` bytes from `peek()` on.
abbrev pub peek : Buffer → ℕ → Bytes
peek b len = take len (drop b.m_reader_idx b.m_buffer)

unfoldable pub retrieve_all : Buffer → Buffer
retrieve_all b = record b { m_reader_idx = cheap_prepend; m_writer_idx = cheap_prepend }

unfoldable pub retrieve : Buffer → ℕ → Buffer
unfolding retrieve_all
retrieve b len =
    if ltb len (readable_bytes b)
    then record b { m_reader_idx = b.m_reader_idx + len }
    else retrieve_all b

unfoldable pub retrieve_as_string : Buffer → ℕ → Buffer × Bytes
unfolding retrieve
retrieve_as_string b len = (retrieve b len, peek b len)

unfoldable pub retrieve_all_as_string : Buffer → Buffer × Bytes
unfolding retrieve_as_string
retrieve_all_as_string b = retrieve_as_string b (readable_bytes b)

-- `std::copy(data, data + len, begin + at)`, inside the array
abbrev pub copy_to : ℕ → Bytes → Bytes → Bytes
copy_to at source xs = take at xs ++ (source ++ drop (at + length source) xs)

-- `m_buffer.resize(n)`
abbrev pub resize : ℕ → Bytes → Bytes
resize n xs = take n xs ++ replicate (n - length xs) 0

unfoldable pub make_space : Buffer → ℕ → Buffer
make_space b len =
    if ltb (writable_bytes b + prependable_bytes b) (len + cheap_prepend)
    then record b { m_buffer = resize (b.m_writer_idx + len) b.m_buffer }
    else record {
      m_buffer = copy_to cheap_prepend (peek b (readable_bytes b)) b.m_buffer;
      m_reader_idx = cheap_prepend;
      m_writer_idx = cheap_prepend + readable_bytes b;
    }

unfoldable pub ensure_writable_bytes : Buffer → ℕ → Buffer
unfolding make_space
ensure_writable_bytes b len = if ltb (writable_bytes b) len then make_space b len else b

-- The copy to `beginWrite()` and `hasWritten`.
unfoldable pub write_bytes : Buffer → Bytes → Outcome Buffer
write_bytes b source =
    if leb (length source) (writable_bytes b)
    then ok (record b {
      m_buffer = copy_to b.m_writer_idx source b.m_buffer;
      m_writer_idx = b.m_writer_idx + length source;
    })
    else fault

unfoldable pub append : Buffer → Bytes → Outcome Buffer
unfolding ensure_writable_bytes write_bytes
append b source = write_bytes (ensure_writable_bytes b (length source)) source

-- `readFd`, on the bytes that `readv` stored in the free part of the array and in the extra buffer.
-- It fails with a -1 that the unsigned comparison does not see: `append` is then asked for about
-- `2 ^ 64` bytes of the extra buffer, a fault.
unfoldable pub read_fd : Buffer → Option Bytes → Outcome Buffer
unfolding append
read_fd b none = fault
read_fd b (some received) =
    let writable = writable_bytes b in
    let stored = copy_to b.m_writer_idx (take writable received) b.m_buffer in
    if ltb (length received) writable
    then ok (record b { m_buffer = stored; m_writer_idx = b.m_writer_idx + length received })
    else append (record b { m_buffer = stored; m_writer_idx = length stored })
        (drop writable received)
