-- ===== src/Services/ReadBack.antt =====
-- What the methods of src/Services.cpp that read answer after one that writes.
use dwt_src.Prelude.{
  ◌≡◌, ◌≢◌, refl, ◌∙◌, sym, Bool, true, false, Option, none, some, [], ◌∷◌, ◌++◌, arith,
  Option-cases, Bool-cases, inl, inr, ◌&&◌, not, if◌then◌else◌,
}
use dwt_src.Bytes.{Bytes, bytes, Names, names_eq}
use dwt_src.Messages.{StatusResponse, GetNodeResponse}
use dwt_src.DNode.{NodeInfo}
use dwt_src.DNode.Walk.{goes_through}
use dwt_src.Services.PathSplit.{split_path}
use dwt_src.Services.{Services, get_node, set_node, delete_node, exists_node}
use dwt_src.Services.Namespace.{namespace}
use dwt_src.Services.Methods.{
  Written, missing, done, set_node_lem, Deleted, refused, delete_node_lem, reads_lem,
}

-- The answer of `getNode` for an entry of the namespace, and that of `existsNode`.
abbrev got : Option NodeInfo → GetNodeResponse
got none = record { success = false; node_data = []; errmsg = bytes "node not exists" }
got (some i) = record { success = true; node_data = i.node_data; errmsg = [] }

abbrev is_there : Option NodeInfo → Bool
is_there none = false
is_there (some _) = true

get-namespace :
    (s : Services) (path : Bytes)
    → split_path path ≢ []
    → get_node s path ≡ got (namespace s (split_path path))
get-namespace s path some_names = elim (Option-cases (namespace s (split_path path))) [
  | inl e ↦ (reads_lem s path some_names).0 ∙ rw e refl
  | inr (i, e) ↦ (reads_lem s path some_names).0 ∙ rw e refl
]

exists-namespace :
    (s : Services) (path : Bytes)
    → split_path path ≢ []
    → exists_node s path
      ≡ record { success = true; exist = is_there (namespace s (split_path path)); errmsg = [] }
exists-namespace s path some_names = elim (Option-cases (namespace s (split_path path))) [
  | inl e ↦ (reads_lem s path some_names).1 ∙ rw e refl
  | inr (i, e) ↦ (reads_lem s path some_names).1 ∙ rw e refl
]

append_single : (p : Names) (name : Bytes) → p ++ name ∷ [] ≢ []
append_single [] name e = cc
append_single (first ∷ p) name e = cc

Written-read :
    (s : Services) (p q : Names) (node_data : Bytes) (r : Services × StatusResponse)
    → Written s p node_data r
    → (r.1.success ≡ is_there (namespace s p))
      × (got (namespace r.0 q) ≡ (
          if is_there (namespace s p) && names_eq p q
          then record { success = true; node_data = node_data; errmsg = [] }
          else got (namespace s q)))
Written-read s p q node_data _ (missing absent) = (rw absent refl, rw absent refl)
Written-read s p q node_data _ (done s' i present changed) = elim (Bool-cases (names_eq p q)) [
  | inl e ↦ (rw present refl, rw (present, changed q, e) refl)
  | inr e ↦ (rw present refl, rw (present, changed q, e) refl)
]

-- For paths that split into at least one name: `setNode` succeeds just when `existsNode` finds the
-- node, and then `getNode` of any path of the same names returns the new data, and of any other path
-- what it returned before; when it does not succeed, `getNode` of every path is as before.
pub get_after_set :
    (s : Services) (path other node_data : Bytes)
    → split_path path ≢ []
    → split_path other ≢ []
    → let r = set_node s path node_data in
      (r.1.success ≡ (exists_node s path).exist)
      × (get_node r.0 other ≡ (
          if (exists_node s path).exist && names_eq (split_path path) (split_path other)
          then record { success = true; node_data = node_data; errmsg = [] }
          else get_node s other))
get_after_set s path other node_data some_names other_names =
    let r = set_node s path node_data in
    let (told, read) =
      Written-read s (split_path path) (split_path other) node_data r
        (set_node_lem s path node_data some_names) in
    rw
      (
        exists-namespace s path some_names,
        get-namespace r.0 other other_names,
        get-namespace s other other_names,
      )
      (told, read)

Deleted-read :
    (s : Services) (p : Names) (name : Bytes) (q : Names) (r : Services × StatusResponse)
    → Deleted s p name r
    → (r.1.success ≡ true → is_there (namespace s (p ++ name ∷ [])) ≡ true)
      × (is_there (namespace r.0 q)
          ≡ (is_there (namespace s q) && not (r.1.success && goes_through (p ++ name ∷ []) q)))
Deleted-read s p name q _ (refused root) = (λ e. cc, ground arith)
Deleted-read s p name q _ (missing deep absent) = (λ e. cc, ground arith)
Deleted-read s p name q _ (done s' i deep present changed) =
    elim (Bool-cases (goes_through (p ++ name ∷ []) q)) [
      | inl e ↦ (λ e. rw present refl, rw (changed q, e) (ground arith))
      | inr e ↦ (λ e. rw present refl, rw (changed q, e) (ground arith))
    ]

-- For a path that splits into a parent's path and a name, and any other path that splits: when
-- `deleteNode` succeeds, `existsNode` found the node before, and finds of the other paths those that
-- it found before, save the ones through the node; when it does not succeed, `existsNode` finds what
-- it found before.
pub exists_after_delete :
    (s : Services) (path other : Bytes) (p : Names) (name : Bytes)
    → split_path path ≡ p ++ name ∷ []
    → split_path other ≢ []
    → let r = delete_node s path in
      (r.1.success ≡ true → (exists_node s path).exist ≡ true)
      × ((exists_node r.0 other).exist ≡ (
          (exists_node s other).exist
          && not (r.1.success && goes_through (split_path path) (split_path other))))
exists_after_delete s path other p name e other_names =
    let r = delete_node s path in
    let some_names : split_path path ≢ [] = λ empty. append_single p name (sym e ∙ empty) in
    let (told, read) =
      Deleted-read s p name (split_path other) r (delete_node_lem s path p name e) in
    rw
      (
        exists-namespace s path some_names,
        exists-namespace r.0 other other_names,
        exists-namespace s other other_names,
        e,
      )
      (told, read)
