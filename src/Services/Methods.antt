-- ===== src/Services/Methods.antt =====
-- What the methods of src/Services.cpp do, on every branch, in terms of the namespace alone.
use dwt_src.Prelude.{
  ℕ, ◌≡◌, ◌≢◌, refl, ap, true, false, none, some, [], ◌∷◌, ◌++◌, ◌==◌, arith, Option-cases,
  Bool-cases, inl, inr, length, length-append,
}
use dwt_src.Bytes.{Bytes, bytes, Names}
use dwt_src.Messages.{StatusResponse}
use dwt_src.DNode.{NodeInfo, DNode, info, children, find}
use dwt_src.DNode.Walk.{walk, walk-append, view}
use dwt_src.Services.PathSplit.{split_path}
use dwt_src.Services.{
  Services, back, pop_back, status, failed, new_info, create_under, create_node, get_node, set_node,
  delete_node, exists_node,
}
use dwt_src.Services.Namespace.{
  namespace, bind_at, cut_at, walk_child, view-add_child, view-erase_child, view-set_data,
}

pop_back-append : (p : Names) (name : Bytes) → pop_back (p ++ name ∷ []) ≡ p
unfolding pop_back
pop_back-append [] name = refl
pop_back-append (x ∷ []) name = refl
pop_back-append (x ∷ y ∷ p) name = ap (◌∷◌ x) (pop_back-append (y ∷ p) name)

back-append : (p : Names) (name : Bytes) → back (p ++ name ∷ []) ≡ name
unfolding back
back-append [] name = refl
back-append (x ∷ []) name = refl
back-append (x ∷ y ∷ p) name = back-append (y ∷ p) name

not_empty : (p : Names) (name : Bytes) → (length (p ++ name ∷ []) == 0) ≡ false
not_empty p name = ground (arith, length-append p (name ∷ []))

single : (p : Names) (name : Bytes) → length (p ++ name ∷ []) ≡ 1 → p ≡ []
single [] name e = refl
single (x ∷ p) name e = absurd (omega (arith, length-append p (name ∷ [])))

-- The source tests, drops and reads the last name of the path.
split_lem :
    (path : Bytes) (p : Names) (name : Bytes)
    → split_path path ≡ p ++ name ∷ []
    → ((length (split_path path) == 0) ≡ false)
      × (pop_back (split_path path) ≡ p)
      × (back (split_path path) ≡ name)
split_lem path p name e =
    (rw e (not_empty p name), rw e (pop_back-append p name), rw e (back-append p name))

-- What `createNode` promises, in terms of the namespace alone: `p` is the parent's path, `name` the
-- new node's name.
pub data Created (s : Services) (session_id : ℕ) (p : Names) (name node_data : Bytes) (type : ℕ)
    : Services × StatusResponse → Type 0 where
  no_parent :
      namespace s p ≡ none
      → Created s session_id p name node_data type (s, failed (bytes "path not exists"))
  taken :
      (parent i : NodeInfo)
      → namespace s p ≡ some parent
      → namespace s (p ++ name ∷ []) ≡ some i
      → Created s session_id p name node_data type (s, failed (bytes "node already exists"))
  done :
      (s' : Services) (parent : NodeInfo)
      → namespace s p ≡ some parent
      → namespace s (p ++ name ∷ []) ≡ none
      → ((q : Names)
          → namespace s' q
            ≡ bind_at
                (namespace s)
                (p ++ name ∷ [])
                (new_info s.next_address session_id name node_data type parent.address)
                q)
      → Created s session_id p name node_data type (s', status true [])

create_under_lem :
    (s : Services) (session_id : ℕ) (p : Names) (curr : DNode) (name node_data : Bytes) (type : ℕ)
    → walk s.m_dummy p ≡ some curr
    → Created s session_id p name node_data type
        (create_under s session_id p curr name node_data type)
unfolding create_under view
create_under_lem s session_id p curr name node_data type found =
    elim (Option-cases (find name (children curr))) [
      | inl e ↦
          rw (e, create_under)
            (done _ (info curr) (rw found) (ground (arith, walk_child s.m_dummy curr p name found))
              (view-add_child s.m_dummy curr p name found _ e))
      | inr (c, e) ↦
          rw (e, create_under)
            (taken (info curr) (info c) (rw found)
              (ground (arith, walk_child s.m_dummy curr p name found)))
    ]

-- `createNode`, for a path that splits into a parent's path and a name: it fails and changes nothing
-- if the parent is missing, or else if the node is there; otherwise it succeeds, and the namespace
-- changes at the path alone, where the new node has the given data and type and, if it is
-- ephemeral, the session as its owner.
pub create_node_lem :
    (s : Services) (session_id : ℕ) (path node_data : Bytes) (type : ℕ) (p : Names) (name : Bytes)
    → split_path path ≡ p ++ name ∷ []
    → Created s session_id p name node_data type (create_node s session_id path node_data type)
unfolding create_node view
create_node_lem s session_id path node_data type p name e =
    let (some_names, front, last) = split_lem path p name e in
    rw (some_names, front)
      (elim (Option-cases (walk s.m_dummy p)) [
        | inl w ↦ rw w (no_parent (rw (w, view)))
        | inr (curr, w) ↦
            rw w (rw (front, last) (create_under_lem s session_id p curr name node_data type w))
      ])

-- What `deleteNode` promises: the root and its siblings stay, a missing node is reported, and any
-- other is gone with all that was below it, while every other path has what it had.
pub data Deleted (s : Services) (p : Names) (name : Bytes)
    : Services × StatusResponse → Type 0 where
  refused : p ≡ [] → Deleted s p name (s, failed (bytes "delete the root node is not allowed"))
  missing :
      p ≢ []
      → namespace s (p ++ name ∷ []) ≡ none
      → Deleted s p name (s, failed (bytes "node not exists"))
  done :
      (s' : Services) (i : NodeInfo)
      → p ≢ []
      → namespace s (p ++ name ∷ []) ≡ some i
      → ((q : Names) → namespace s' q ≡ cut_at (namespace s) (p ++ name ∷ []) q)
      → Deleted s p name (s', status true [])

-- `deleteNode`, for a path that splits into a parent's path and a name: it refuses a path of one
-- name, reports a node that is not there, and changes nothing then; otherwise it succeeds, and
-- exactly the paths through the node are gone.
pub delete_node_lem :
    (s : Services) (path : Bytes) (p : Names) (name : Bytes)
    → split_path path ≡ p ++ name ∷ []
    → Deleted s p name (delete_node s path)
unfolding delete_node view
delete_node_lem s path p name e =
    let (some_names, front, last) = split_lem path p name e in
    elim (Bool-cases (length (split_path path) == 1)) [
      | inl one ↦ rw (some_names, one) (refused (single p name (ground (arith, ap length e))))
      | inr more ↦
          let deep : p ≢ [] = λ none_above. absurd (ground (arith, ap length e)) in
          rw (some_names, more, front)
            (elim (Option-cases (walk s.m_dummy p)) [
              | inl w ↦ rw w (missing deep (ground (arith, walk-append s.m_dummy p (name ∷ []))))
              | inr (curr, w) ↦
                  let child = walk_child s.m_dummy curr p name w in
                  rw (w, last)
                    (elim (Option-cases (find name (children curr))) [
                      | inl f ↦ rw f (missing deep (ground (arith, child)))
                      | inr (c, f) ↦ rw f (
                          rw (front, last)
                            (done _ (info c) deep (ground (arith, child))
                              (view-erase_child s.m_dummy curr p name w)))
                    ])
            ])
    ]

-- What `setNode` promises.
pub data Written (s : Services) (p : Names) (node_data : Bytes)
    : Services × StatusResponse → Type 0 where
  missing : namespace s p ≡ none → Written s p node_data (s, failed (bytes "node not exists"))
  done :
      (s' : Services) (i : NodeInfo)
      → namespace s p ≡ some i
      → ((q : Names)
          → namespace s' q ≡ bind_at (namespace s) p (record i { node_data = node_data }) q)
      → Written s p node_data (s', status true [])

-- `setNode`, for a path that splits into at least one name: it reports a node that is not there and
-- changes nothing, or it succeeds and the data of that node is what changes in the namespace.
pub set_node_lem :
    (s : Services) (path node_data : Bytes)
    → split_path path ≢ []
    → Written s (split_path path) node_data (set_node s path node_data)
unfolding set_node view
set_node_lem s path node_data some_names =
    let p = split_path path in
    let ready : (length p == 0) ≡ false = ground arith in
    rw ready (elim (Option-cases (walk s.m_dummy p)) [
      | inl w ↦ rw w (missing (rw w))
      | inr (curr, w) ↦
          rw w (done _ (info curr) (rw w) (view-set_data s.m_dummy curr p node_data w))
    ])

-- `getNode` and `existsNode`, for a path that splits into at least one name, answer from the
-- namespace: the data of the node, or that it is not there, and whether it is there.
pub reads_lem :
    (s : Services) (path : Bytes)
    → split_path path ≢ []
    → (get_node s path ≡ elim (namespace s (split_path path)) [
      | none ↦ record { success = false; node_data = []; errmsg = bytes "node not exists" }
      | some i ↦ record { success = true; node_data = i.node_data; errmsg = [] }
    ])
      × (exists_node s path ≡ record {
        success = true;
        exist = elim (namespace s (split_path path)) [ none ↦ false | some _ ↦ true ];
        errmsg = [];
      })
unfolding get_node exists_node view
reads_lem s path some_names =
    let ready : (length (split_path path) == 0) ≡ false = ground arith in
    (ground (arith, ready), ground (arith, ready))
