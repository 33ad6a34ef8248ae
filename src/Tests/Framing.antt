-- ===== src/Tests/Framing.antt =====
-- An encoding of a list of byte strings as one: each with its length before it.
use dwt_src.Prelude.{
  take-front, drop-front, ℕ, zero, suc, ◌≤◌, ◌≡◌, refl, ap, ◌∙◌, [], ◌∷◌, ◌++◌, length,
  length-append, take, drop, arith, Option, some,
}
use dwt_src.Bytes.{Bytes, Names}
use dwt_src.Messages.{Codec}

unfoldable pub pack : Names → Bytes
pack [] = []
pack (x ∷ xs) = length x ∷ (x ++ pack xs)

unfoldable pub unpack : ℕ → Bytes → Names
unpack zero s = []
unpack (suc fuel) [] = []
unpack (suc fuel) (n ∷ s) = take n s ∷ unpack fuel (drop n s)

pub unpack-pack : (fuel : ℕ) (xs : Names) → length (pack xs) ≤ fuel → unpack fuel (pack xs) ≡ xs
unfolding pack unpack
unpack-pack zero [] h = refl
unpack-pack (suc fuel) [] h = refl
unpack-pack zero (x ∷ xs) h = absurd (omega arith)
unpack-pack (suc fuel) (x ∷ xs) h =
    let rest = unpack-pack fuel xs (omega (arith, length-append x (pack xs))) in
    rw (take-front x (pack xs), drop-front x (pack xs)) (ap (◌∷◌ x) rest)

-- A codec from an encoding as a list of byte strings.
abbrev pub framed :
    {M : Type 0} (encode : M → Names) (decode : Names → Option M)
    → ((m : M) → decode (encode m) ≡ some m)
    → Codec M
framed encode decode back = record {
  parse = λ s. decode (unpack (length s) s);
  serialize = λ m. pack (encode m);
  parse-serialize =
      λ m. ap decode (unpack-pack (length (pack (encode m))) (encode m) (omega arith)) ∙ back m;
}
