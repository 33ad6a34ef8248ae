-- ===== src/Services/Namespace.antt =====
-- The namespace of the registry, and what each write through a pointer of `walkTo` does to it.
use mathlib.Core.List.{append-nil}
use dwt_src.Prelude.{
  ◌≡◌, refl, none, some, [], ◌∷◌, ◌++◌, arith, Option-cases, inl, inr, if◌then◌else◌,
}
use dwt_src.Bytes.{Bytes, bytes_eq_iff, Names, names_eq}
use dwt_src.DNode.{NodeInfo, DNode, node, leaf, info, children, find}
use dwt_src.DNode.Walk.{
  walk, write_at, Namespace, view, strip, goes_through, strip-some, strip-append, view-write_at,
  view-append, strip-append_left, names_eq-append_left, strip-append_none, names_eq-append_none,
  walk-append, find-erase,
}
use dwt_src.Services.{Services, add_child, erase_child, set_data}

-- The namespace that the clients of a registry see.
abbrev pub namespace : Services → Namespace
namespace s = view s.m_dummy

walk_one : (curr : DNode) (name : Bytes) → walk curr (name ∷ []) ≡ find name (children curr)
unfolding walk
walk_one curr name = ground arith

view-add_child_here :
    (curr : DNode) (name : Bytes) (i : NodeInfo)
    → find name (children curr) ≡ none
    → (r : Names)
    → view (add_child name (node i leaf) curr) r
      ≡ (if names_eq (name ∷ []) r then some i else view curr r)
unfolding add_child view walk names_eq find
view-add_child_here curr name i fresh [] = refl
view-add_child_here curr name i fresh (b ∷ []) = ground (arith, bytes_eq_iff name b)
view-add_child_here curr name i fresh (b ∷ c ∷ r) = ground (arith, bytes_eq_iff name b)

view-erase_child_here :
    (curr : DNode) (name : Bytes) (r : Names)
    → view (erase_child name curr) r ≡ (if goes_through (name ∷ []) r then none else view curr r)
unfolding erase_child view walk strip
view-erase_child_here curr name [] = refl
view-erase_child_here curr name (b ∷ r) = ground (arith, find-erase name b (children curr))

view-set_data_here :
    (curr : DNode) (node_data : Bytes) (r : Names)
    → view (set_data node_data curr) r
      ≡ (if names_eq [] r then some (record (info curr) { node_data = node_data }) else view curr r)
unfolding set_data view walk names_eq
view-set_data_here curr node_data [] = refl
view-set_data_here curr node_data (b ∷ r) = refl

module _ (root curr : DNode) (parent : Names) (name : Bytes)
    (found : walk root parent ≡ some curr) where
  pub walk_child : walk root (parent ++ name ∷ []) ≡ find name (children curr)
  walk_child = rw (walk-append root parent (name ∷ []), found) (walk_one curr name)

  -- A new child is one new path.
  pub view-add_child :
      (i : NodeInfo)
      → find name (children curr) ≡ none
      → (q : Names)
      → view (write_at (add_child name (node i leaf)) parent root) q
        ≡ (if names_eq (parent ++ name ∷ []) q then some i else view root q)
  view-add_child i fresh q = elim (Option-cases (strip parent q)) [
    | inl e ↦
        rw
          (
            view-write_at (add_child name (node i leaf)) parent root curr found q,
            e,
            names_eq-append_none parent (name ∷ []) q e,
          )
          refl
    | inr (r, e) ↦
        rw
          (
            view-write_at (add_child name (node i leaf)) parent root curr found q,
            e,
            strip-some parent q r e,
            names_eq-append_left parent (name ∷ []) r,
            view-append root curr parent r found,
          )
          (view-add_child_here curr name i fresh r)
  ]

  -- An erased child takes every path through it away.
  pub view-erase_child :
      (q : Names)
      → view (write_at (erase_child name) parent root) q
        ≡ (if goes_through (parent ++ name ∷ []) q then none else view root q)
  view-erase_child q = elim (Option-cases (strip parent q)) [
    | inl e ↦ ground (
      arith,
      view-write_at (erase_child name) parent root curr found q,
      strip-append_none parent (name ∷ []) q e,
    )
    | inr (r, e) ↦ rw (strip-some parent q r e) (
        ground (
          arith,
          view-write_at (erase_child name) parent root curr found (parent ++ r),
          strip-append parent r,
          strip-append_left parent (name ∷ []) r,
          view-append root curr parent r found,
          view-erase_child_here curr name r,
        ))
  ]

-- New data at a path is seen at that path alone.
pub view-set_data :
    (root curr : DNode) (parent : Names) (node_data : Bytes)
    → walk root parent ≡ some curr
    → (q : Names)
    → view (write_at (set_data node_data) parent root) q ≡ (
        if names_eq parent q
        then some (record (info curr) { node_data = node_data })
        else view root q)
view-set_data root curr parent node_data found q = elim (Option-cases (strip parent q)) [
  | inl e ↦ ground (
    arith,
    view-write_at (set_data node_data) parent root curr found q,
    append-nil parent,
    names_eq-append_none parent [] q e,
  )
  | inr (r, e) ↦ rw (strip-some parent q r e) (
      ground (
        arith,
        view-write_at (set_data node_data) parent root curr found (parent ++ r),
        strip-append parent r,
        append-nil parent,
        names_eq-append_left parent [] r,
        view-append root curr parent r found,
        view-set_data_here curr node_data r,
      ))
]

-- The namespace with the entry at `p` replaced.
abbrev pub bind_at : Namespace → Names → NodeInfo → Namespace
bind_at v p i q = if names_eq p q then some i else v q

-- The namespace without `p` and all that is below it.
abbrev pub cut_at : Namespace → Names → Namespace
cut_at v p q = if goes_through p q then none else v q
