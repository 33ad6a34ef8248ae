-- ===== src/Uuid4.antt =====
-- src/uuid4.h and src/uuid4.cpp: the random text from which the id of a session is hashed. What is read
-- from the random source of the system, and the hash, are arguments.
pub mod Text
use Prim.Native.Nat.{bit_xor}
use dwt_src.Prelude.{
  ℕ, zero, suc, ◌+◌, ◌*◌, ◌/◌, ◌%◌, ◌^◌, Option, none, some, List, [], ◌∷◌, ◌++◌, ◌==◌,
  if◌then◌else◌, get_elem?, Outcome, ok, or_fault, ◌>>=◌,
}
use dwt_src.Bytes.{Bytes, bytes}

abbrev pub word_modulus : ℕ
word_modulus = 18446744073709551616

-- `m_seed`
pub record Seed : Type 0 where
  pub first : ℕ
  pub second : ℕ

-- The word, and the seed after it.
unfoldable pub xorshift128plus : Seed → ℕ × Seed
xorshift128plus s =
    let s1 = bit_xor s.first (s.first * 2 ^ 23 % word_modulus) in
    let next = bit_xor (bit_xor (bit_xor s1 s.second) (s1 / 2 ^ 18)) (s.second / 2 ^ 5) in
    ((next + s.second) % word_modulus, record { first = s.second; second = next })

-- The bytes of a word, the lowest first.
abbrev pub word_bytes : ℕ → ℕ → List ℕ
word_bytes zero w = []
word_bytes (suc n) w = w % 256 ∷ word_bytes n (w / 256)

abbrev pub template_str : Bytes
template_str = bytes "xxxxxxxx-xxxx-4xxx-yxxx-xxxxxxxxxxxx"

abbrev pub chars : Bytes
chars = bytes "0123456789abcdef"

-- The loop over the template from the digit `i` on.
unfoldable pub fill_template : List ℕ → Bytes → ℕ → Outcome Bytes
fill_template b [] i = ok []
fill_template b (p ∷ template) i =
    let next = fill_template b template (suc i) in
    let same = fill_template b template i in
    let digit : Outcome ℕ = do
      byte ← or_fault (get_elem? b (i / 2))
      ok (if i % 2 == 1 then byte / 16 else byte % 16)
    in let hex_digit : Outcome Bytes = do
      n ← digit
      c ← or_fault (get_elem? chars n)
      rest ← next
      ok (c ∷ rest)
      in let variant : Outcome Bytes = do
        n ← digit
        c ← or_fault (get_elem? chars (n % 4 + 8))
        rest ← next
        ok (c ∷ rest)
        in let kept : Outcome Bytes = do rest ← same; ok (p ∷ rest)
          in if p == 120 then hex_digit else (if p == 121 then variant else kept)

-- `uuid4_generate`, without the zero byte at the end.
unfoldable pub uuid4_generate : Seed → Outcome (Bytes × Seed)
unfolding xorshift128plus fill_template
uuid4_generate s =
    let (low, s') = xorshift128plus s in
    let (high, s'') = xorshift128plus s' in
    do text ← fill_template (word_bytes 8 low ++ word_bytes 8 high) template_str 0; ok (text, s'')

-- `uuid4_init`, on the words that were read, or `none` for a file that does not open.
unfoldable pub uuid4_init : Option Seed → Seed → Seed
uuid4_init none s = s
uuid4_init (some drawn) s = drawn

unfoldable pub generate_session_id : (Bytes → ℕ) → Option Seed → Seed → Outcome (ℕ × Seed)
unfolding uuid4_init uuid4_generate
generate_session_id hash drawn s = do
  (text, s') ← uuid4_generate (uuid4_init drawn s)
  ok (hash text, s')
