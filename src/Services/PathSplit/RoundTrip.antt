-- ===== src/Services/PathSplit/RoundTrip.antt =====
-- The paths of `splitPath` as lists of names, and their printed form.
use mathlib.Core.List.{append-nil, append_assoc}
use dwt_src.Prelude.{
  ℕ, zero, suc, ◌+◌, ◌-◌, ◌≤◌, ◌<◌, ◌≡◌, ◌≢◌, ◌⊎◌, refl, ap, ◌∙◌, sym, Bool, true, false, not, List,
  [], ◌∷◌, ◌++◌, arith, ◌&&◌, if◌then◌else◌, length, length-append, inl, inr,
}
use dwt_src.Bytes.{Bytes, Names}
use dwt_src.Services.PathSplit.{slash, getline, is_empty, split_loop, split_path}

abbrev pub NoSlash : Bytes → Type 0
NoSlash [] = Unit {0}
NoSlash (c ∷ s) = (c ≢ slash) × NoSlash s

-- Names that may follow the first one.
abbrev pub AreInner : Names → Type 0
AreInner [] = Unit {0}
AreInner (x ∷ xs) = NoSlash x × (x ≢ []) × AreInner xs

-- The lists of names that stand for a path: only the first name may be empty.
abbrev pub IsPath : Names → Type 0
IsPath [] = Unit {0}
IsPath (x ∷ xs) = NoSlash x × AreInner xs

-- The names joined by slashes, with or without one more at the end.
unfoldable pub print : Bool → Names → Bytes
print closed [] = []
print closed (x ∷ []) = x ++ (if closed then slash ∷ [] else [])
print closed (x ∷ y ∷ ys) = x ++ (slash ∷ print closed (y ∷ ys))

getline_stops : (x rest : Bytes) → NoSlash x → getline (x ++ (slash ∷ rest)) ≡ (x, rest)
unfolding getline
getline_stops [] rest h = refl
getline_stops (c ∷ x) rest h = ground (arith, getline_stops x rest h.1)

getline_ends : (x : Bytes) → NoSlash x → getline x ≡ (x, [])
unfolding getline
getline_ends [] h = refl
getline_ends (c ∷ x) h = ground (arith, getline_ends x h.1)

getline-print :
    (closed : Bool) (x : Bytes) (xs : Names)
    → NoSlash x
    → getline (print closed (x ∷ xs)) ≡ (x, print closed xs)
unfolding print
getline-print true x [] h = getline_stops x [] h
getline-print false x [] h = rw (append-nil x) (getline_ends x h)
getline-print closed x (y ∷ ys) h = getline_stops x (print closed (y ∷ ys)) h

pub print-cons :
    (closed : Bool) (x : Bytes) (xs : Names)
    → length x + length (print closed xs) ≤ length (print closed (x ∷ xs))
unfolding print
print-cons closed x [] = omega (arith, length-append x (if closed then slash ∷ [] else []))
print-cons closed x (y ∷ ys) = omega (arith, length-append x (slash ∷ print closed (y ∷ ys)))

print-shrinks :
    (closed : Bool) (x : Bytes) (xs : Names)
    → length (print closed xs) ≤ length (print closed (x ∷ xs)) - 1
unfolding print
print-shrinks closed x [] = omega arith
print-shrinks closed x (y ∷ ys) = omega (arith, length-append x (slash ∷ print closed (y ∷ ys)))

pub length-pos : {A : Type 0} (x : List A) → x ≢ [] → 0 < length x
length-pos [] h = absurd (h refl)
length-pos (c ∷ x) h = omega arith

-- One round of the loop on a stream that is not at its end.
pub round :
    (fuel : ℕ) (ss item rest : Bytes) (pathes : Names)
    → ss ≢ []
    → getline ss ≡ (item, rest)
    → is_empty item && not (is_empty pathes) ≡ false
    → split_loop (suc fuel) ss pathes ≡ split_loop fuel rest (pathes ++ item ∷ [])
unfolding split_loop
round fuel [] item rest pathes h e t = absurd (h refl)
round fuel (c ∷ s) item rest pathes h e t = rw (e, t) refl

split_loop-inner :
    (xs : Names) (fuel : ℕ) (closed : Bool) (z : Bytes) (zs : Names)
    → AreInner xs
    → length (print closed xs) ≤ fuel
    → split_loop fuel (print closed xs) (z ∷ zs) ≡ (z ∷ zs) ++ xs
unfolding print split_loop is_empty
split_loop-inner [] zero closed z zs h f = sym (append-nil (z ∷ zs))
split_loop-inner [] (suc fuel) closed z zs h f = sym (append-nil (z ∷ zs))
split_loop-inner (x ∷ xs) zero closed z zs h f =
    absurd (omega (arith, print-cons closed x xs, length-pos x h.1))
split_loop-inner (x ∷ xs) (suc fuel) closed z zs h f =
    round fuel (print closed (x ∷ xs)) x (print closed xs) (z ∷ zs)
      (λ e. absurd (omega (arith, ap length e, print-cons closed x xs, length-pos x h.1)))
      (getline-print closed x xs h.0) (ground arith)
    ∙ split_loop-inner xs fuel closed z (zs ++ x ∷ []) h.2
        (omega (arith, print-cons closed x xs, length-pos x h.1))
    ∙ ap (◌∷◌ z) (append_assoc zs (x ∷ []) xs)

-- `splitPath` reads back every path that is printed, with or without a slash at the end, unless
-- nothing was printed (the root is printed with its slash).
pub split_path-print :
    (closed : Bool) (names : Names)
    → IsPath names
    → (names ≡ []) ⊎ (print closed names ≢ [])
    → split_path (print closed names) ≡ names
unfolding split_path print
split_path-print closed [] h e = refl
split_path-print closed (x ∷ xs) h (inl e) = absurd (cc)
split_path-print closed (x ∷ xs) h (inr shown) =
    let size = length (print closed (x ∷ xs)) - 1 in
    let e : length (print closed (x ∷ xs)) ≡ suc size =
      omega (arith, length-pos (print closed (x ∷ xs)) shown) in
    rw e (
      round size (print closed (x ∷ xs)) x (print closed xs) [] shown
        (getline-print closed x xs h.0) (ground arith)
      ∙ split_loop-inner xs size closed x [] h.1 (print-shrinks closed x xs))
