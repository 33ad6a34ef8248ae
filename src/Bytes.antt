-- ===== src/Bytes.antt =====
-- `std::string` as a list of bytes, and lists of such strings.
use Prim.Native.Char.{code}
use Prim.Native.String.{String}
use dwt_src.Prelude.{ℕ, ◌≡◌, ◌↔◌, refl, Bool, true, false, List, [], ◌∷◌, ◌&&◌, ◌==◌, arith}

abbrev pub Bytes : Type 0
Bytes = List ℕ

-- The bytes of an ASCII literal.
abbrev pub bytes : String → Bytes
bytes String.[] = []
bytes (String.◌∷◌ c s) = code c ∷ bytes s

unfoldable pub bytes_eq : Bytes → Bytes → Bool
bytes_eq [] [] = true
bytes_eq (a ∷ s) (b ∷ t) = a == b && bytes_eq s t
bytes_eq _ _ = false

pub bytes_eq_iff : (s t : Bytes) → (bytes_eq s t ≡ true) ↔ (s ≡ t)
unfolding bytes_eq
bytes_eq_iff [] [] = (λ _. refl, λ _. refl)
bytes_eq_iff [] (b ∷ t) = (λ e. cc, λ e. cc)
bytes_eq_iff (a ∷ s) [] = (λ e. cc, λ e. cc)
bytes_eq_iff (a ∷ s) (b ∷ t) = ground (arith, bytes_eq_iff s t)

-- A path as the names on it, from the top.
abbrev pub Names : Type 0
Names = List Bytes

unfoldable pub names_eq : Names → Names → Bool
names_eq [] [] = true
names_eq (a ∷ s) (b ∷ t) = bytes_eq a b && names_eq s t
names_eq _ _ = false

pub names_eq_iff : (s t : Names) → (names_eq s t ≡ true) ↔ (s ≡ t)
unfolding names_eq
names_eq_iff [] [] = (λ _. refl, λ _. refl)
names_eq_iff [] (b ∷ t) = (λ e. cc, λ e. cc)
names_eq_iff (a ∷ s) [] = (λ e. cc, λ e. cc)
names_eq_iff (a ∷ s) (b ∷ t) = ground (arith, bytes_eq_iff a b, names_eq_iff s t)
