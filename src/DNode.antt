-- ===== src/DNode.antt =====
-- src/DNode.h: a node of the registry, with the maps of its children. A node is owned by the map
-- that holds it, so a tree stands for the `shared_ptr`s and what leaves the tree is freed. A node
-- carries its address, a number never used again, for the `weak_ptr`s that point to it. The order of
-- an `unordered_map` is not specified; here a new entry comes first.
pub mod Walk
use dwt_src.Prelude.{
  ℕ, suc, ◌+◌, Bool, true, false, Option, none, some, List, [], ◌∷◌, ◌==◌, if◌then◌else◌,
}
use dwt_src.Bytes.{Bytes, bytes_eq}

-- `enum class NodeType: int`, whose values are cast from any number of a request
abbrev pub persistent : ℕ
persistent = 1

abbrev pub ephemeral : ℕ
ephemeral = 2

-- The fields of a `DNode` but for the children.
pub record NodeInfo : Type 0 where
  pub address : ℕ
  pub name : Bytes
  pub node_data : Bytes
  pub type : ℕ
  pub ephemeral_owner : ℕ
  pub parent : Option ℕ

mutual
  pub data DNode : Type 0 where
    node : NodeInfo → Children → DNode

  pub data Children : Type 0 where
    leaf : Children
    entry : Bytes → DNode → Children → Children

abbrev pub info : DNode → NodeInfo
info (node i cs) = i

abbrev pub children : DNode → Children
children (node i cs) = cs

-- `children.count(name)` and `children[name]` on a name that is there
unfoldable pub find : Bytes → Children → Option DNode
find k leaf = none
find k (entry j n cs) = if bytes_eq j k then some n else find k cs

-- `children.erase(name)`
unfoldable pub erase : Bytes → Children → Children
erase k leaf = leaf
erase k (entry j n cs) = let rest = erase k cs in if bytes_eq j k then rest else entry j n rest

unfoldable pub size : Children → ℕ
size leaf = 0
size (entry j n cs) = size cs + 1

-- The keys, in the order of iteration.
unfoldable pub keys : Children → List Bytes
keys leaf = []
keys (entry j n cs) = j ∷ keys cs

-- A write through a pointer to the child.
unfoldable pub modify_child : Bytes → (DNode → DNode) → Children → Children
modify_child k f leaf = leaf
modify_child k f (entry j n cs) =
    let rest = modify_child k f cs in if bytes_eq j k then entry j (f n) cs else entry j n rest

-- What a `weak_ptr` to the node at an address finds, and a write through it.
unfoldable mutual
  pub find_node : ℕ → DNode → Option DNode
  find_node a (node i cs) = if i.address == a then some (node i cs) else find_below a cs

  pub find_below : ℕ → Children → Option DNode
  find_below a leaf = none
  find_below a (entry j n cs) =
      let here = find_node a n in
      let rest = find_below a cs in elim here [ none ↦ rest | some x ↦ some x ]

unfoldable mutual
  pub edit_node : ℕ → (DNode → DNode) → DNode → DNode
  edit_node a f (node i cs) =
      let below = edit_below a f cs in if i.address == a then f (node i cs) else node i below

  pub edit_below : ℕ → (DNode → DNode) → Children → Children
  edit_below a f leaf = leaf
  edit_below a f (entry j n cs) = entry j (edit_node a f n) (edit_below a f cs)
