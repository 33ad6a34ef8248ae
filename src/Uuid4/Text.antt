-- ===== src/Uuid4/Text.antt =====
-- The text of `uuid4_generate` of src/uuid4.cpp.
use dwt_src.Prelude.{
  ℕ, suc, ◌+◌, ◌<◌, ◌≡◌, ◌≢◌, List, [], ◌∷◌, ◌==◌, if◌then◌else◌, get_elem?, some,
}
use dwt_src.Bytes.{Bytes}
use dwt_src.Uuid4.{chars}

-- Bytes, as numbers.
data Octets : List ℕ → Type 0 where
  octets_end : Octets []
  octets : {b : ℕ} {s : List ℕ} → b < 256 → Octets s → Octets (b ∷ s)

-- The places for a digit in a template.
abbrev places : Bytes → ℕ
places [] = 0
places (p ∷ template) =
    let more = places template in
    if p == 120 then suc more else (if p == 121 then suc more else more)

-- A text that fits a template: a digit for an `x`, one of the last four from `8` on for a `y`, and the
-- template's own byte elsewhere.
pub data Matches : Bytes → Bytes → Type 0 where
  matches_end : Matches [] []
  matches_digit :
      {p c n : ℕ} {template text : Bytes}
      → p ≡ 120
      → n < 16
      → get_elem? chars n ≡ some c
      → Matches template text
      → Matches (p ∷ template) (c ∷ text)
  matches_variant :
      {p c n : ℕ} {template text : Bytes}
      → p ≡ 121
      → n < 4
      → get_elem? chars (n + 8) ≡ some c
      → Matches template text
      → Matches (p ∷ template) (c ∷ text)
  matches_same :
      {p : ℕ} {template text : Bytes}
      → p ≢ 120
      → p ≢ 121
      → Matches template text
      → Matches (p ∷ template) (p ∷ text)
