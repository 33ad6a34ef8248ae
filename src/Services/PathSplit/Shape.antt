-- ===== src/Services/PathSplit/Shape.antt =====
-- What `splitPath` returns has the shape of a path, and prints as what was split.
use mathlib.Core.List.{append-nil, append_assoc}
use dwt_src.Prelude.{
  ℕ, zero, suc, ◌≤◌, ◌<◌, ◌≡◌, ◌≢◌, ◌⊎◌, refl, ap, ◌∙◌, sym, Bool, true, false, [], ◌∷◌, ◌++◌,
  arith, length, length-append, Bool-cases, inl, inr,
}
use dwt_src.Bytes.{Bytes, Names}
use dwt_src.Services.PathSplit.{slash, getline, is_empty, split_loop, split_path}
use dwt_src.Services.PathSplit.RoundTrip.{
  NoSlash, AreInner, IsPath, print, print-cons, length-pos, round,
}

-- One call of `getline`: the item ends at a slash, or at the end of the stream.
record Line (s item rest : Bytes) : Type 0 where
  clean : NoSlash item
  whole : (s ≡ item ++ (slash ∷ rest)) ⊎ (s ≡ item) × (rest ≡ [])

getline-Line : (s : Bytes) → Line s (getline s).0 (getline s).1
unfolding getline
getline-Line [] = record { clean = tt; whole = inr (refl, refl) }
getline-Line (c ∷ s) =
    let ih = getline-Line s in
    record { clean = ground (arith, ih.clean); whole = ground (arith, ih.whole) }

-- A stream that printed names come from, with one more in front.
abbrev pub Prints : Bytes → Names → Type 0
Prints s xs = (closed : Bool) × (s ≡ print closed xs)

Prints-cons :
    (s item rest : Bytes) (xs : Names)
    → AreInner xs
    → Line s item rest
    → Prints rest xs
    → Prints s (item ∷ xs)
unfolding print
Prints-cons s item rest [] h l (closed, e) = elim l.whole [
  | inl w ↦ (true, ground arith)
  | inr (w, none_left) ↦ (false, ground (arith, append-nil item))
]
Prints-cons s item rest (y ∷ ys) h l (closed, e) = elim l.whole [
  | inl w ↦ (closed, ground arith)
  | inr (w, none_left) ↦
      absurd
        (omega (arith, ap length e, ap length none_left, print-cons closed y ys, length-pos y h.1))
]

-- The rest of the stream is shorter.
rest-shorter : (s item rest : Bytes) → Line s item rest → s ≢ [] → length rest < length s
rest-shorter s item rest l h = elim l.whole [
  | inl w ↦ omega (arith, ap length w, length-append item (slash ∷ rest))
  | inr (w, e) ↦ omega (arith, ap length e, length-pos s h)
]

not_empty : (x : Bytes) → is_empty x ≡ false → x ≢ []
unfolding is_empty
not_empty [] e = cc
not_empty (c ∷ x) e = λ f. absurd (cc)

-- The loop fails, or appends names that may follow and that print as the stream.
record Appends (ss : Bytes) (pathes result xs : Names) : Type 0 where
  inner : AreInner xs
  appended : result ≡ pathes ++ xs
  prints : Prints ss xs

nothing_left : (z : Bytes) (zs : Names) → Appends [] (z ∷ zs) (z ∷ zs) []
unfolding print
nothing_left z zs = record {
  inner = tt;
  appended = sym (append-nil (z ∷ zs));
  prints = (true, refl);
}

split_loop-Appends :
    (fuel : ℕ) (ss : Bytes) (z : Bytes) (zs : Names)
    → length ss ≤ fuel
    → (split_loop fuel ss (z ∷ zs) ≡ [])
      ⊎ ((xs : Names) × Appends ss (z ∷ zs) (split_loop fuel ss (z ∷ zs)) xs)
unfolding split_loop is_empty
split_loop-Appends zero [] z zs f = inr ([], nothing_left z zs)
split_loop-Appends (suc fuel) [] z zs f = inr ([], nothing_left z zs)
split_loop-Appends zero (c ∷ s) z zs f = absurd (omega arith)
split_loop-Appends (suc fuel) (c ∷ s) z zs f =
    let item = (getline (c ∷ s)).0 in
    let rest = (getline (c ∷ s)).1 in
    let l = getline-Line (c ∷ s) in
    let shorter = rest-shorter (c ∷ s) item rest l (λ e. absurd (cc)) in
    elim (Bool-cases (is_empty item)) [
      | inl e ↦ inl (rw e)
      | inr e ↦
          rw (round fuel (c ∷ s) item rest (z ∷ zs) (λ e. absurd (cc)) refl (rw e))
            (elim (split_loop-Appends fuel rest z (zs ++ item ∷ []) (omega arith)) [
              | inl fails ↦ inl fails
              | inr (xs, a) ↦ inr (
                item ∷ xs,
                record {
                  inner = (l.clean, not_empty item e, a.inner);
                  appended = a.appended ∙ ap (◌∷◌ z) (append_assoc zs (item ∷ []) xs);
                  prints = Prints-cons (c ∷ s) item rest xs a.inner l a.prints;
                },
              )
            ])
    ]

-- Whatever `splitPath` does not reject is the print of the names that it returns, and these are the
-- names of a path: no name has a slash, and only the first may be empty.
pub split_path_shape :
    (path : Bytes) → split_path path ≢ [] → IsPath (split_path path) × Prints path (split_path path)
unfolding split_path
split_path_shape [] h = absurd (h refl)
split_path_shape (c ∷ s) h =
    let item = (getline (c ∷ s)).0 in
    let rest = (getline (c ∷ s)).1 in
    let l = getline-Line (c ∷ s) in
    let shorter = rest-shorter (c ∷ s) item rest l (λ e. absurd (cc)) in
    let first : split_path (c ∷ s) ≡ split_loop (length s) rest (item ∷ []) =
      round (length s) (c ∷ s) item rest [] (λ e. absurd (cc)) refl (ground arith) in
    elim (split_loop-Appends (length s) rest item [] (omega arith)) [
      | inl fails ↦ absurd (h (first ∙ fails))
      | inr (xs, a) ↦
          rw (first, a.appended)
            ((l.clean, a.inner), Prints-cons (c ∷ s) item rest xs a.inner l a.prints)
    ]
