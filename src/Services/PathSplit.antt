-- ===== src/Services/PathSplit.antt =====
-- `Services::splitPath` of src/Services.cpp.
pub mod RoundTrip
pub mod Shape
use dwt_src.Prelude.{
  ℕ, zero, suc, Bool, true, false, not, List, [], ◌∷◌, ◌++◌, ◌==◌, ◌&&◌, if◌then◌else◌, length,
}
use dwt_src.Bytes.{Bytes, Names}

abbrev pub slash : ℕ
slash = b'/'

-- `std::getline(ss, item, '/')` on what is left of the stream: the item, and what is left then.
-- It fails at the end of the stream, which the caller tests.
unfoldable pub getline : Bytes → Bytes × Bytes
getline [] = ([], [])
getline (c ∷ s) = let (item, rest) = getline s in if c == slash then ([], s) else (c ∷ item, rest)

pub is_empty : {A : Type 0} → List A → Bool
is_empty [] = true
is_empty (x ∷ xs) = false

-- The `while` loop. A round takes at least one byte, so as many rounds as bytes are enough.
pub split_loop : ℕ → Bytes → Names → Names
split_loop zero ss pathes = pathes
split_loop (suc fuel) [] pathes = pathes
split_loop (suc fuel) (c ∷ s) pathes =
    let (item, rest) = getline (c ∷ s) in
    let more = split_loop fuel rest (pathes ++ item ∷ []) in
    if is_empty item && not (is_empty pathes) then [] else more

unfoldable pub split_path : Bytes → Names
unfolding split_loop getline is_empty
split_path path = split_loop (length path) path []
