-- ===== src/Services.antt =====
-- src/Services.h and src/Services.cpp: the registry of nodes and its request handlers. Each method
-- takes the state and returns the new one; `m_mutex`, held throughout, makes it one step. A method
-- of the source returns the serialized response: here it returns the message, and its handler
-- serializes it. Protobuf is a parameter.
pub mod PathSplit
pub mod Namespace
pub mod Methods
pub mod ReadBack
pub mod Handled
use mathlib.Core.Option
use dwt_src.Prelude.{
  ℕ, suc, ◌+◌, ◌%◌, ◌^◌, Bool, true, false, not, Option, none, some, List, [], ◌∷◌, ◌++◌, ◌==◌,
  ◌&&◌, ltb, if◌then◌else◌, length,
}
use dwt_src.Bytes.{Bytes, bytes, Names}
use dwt_src.Messages.{
  Codec, ServiceCodecs, CreateNodeRequest, SetNodeRequest, PathRequest, StatusResponse,
  GetNodeResponse, LsNodeResponse, StatNodeResponse, ExistsNodeResponse, NodeState,
}
use dwt_src.Messages.ServiceType
use dwt_src.DNode
use dwt_src.DNode.{
  NodeInfo, DNode, node, Children, leaf, entry, info, children, persistent, ephemeral,
}
use dwt_src.DNode.Walk.{walk, write_at}
use PathSplit.{split_path}

-- `m_sessionMap[id]` of an id that is not there is an empty vector. `next_address` numbers the
-- nodes in the order in which they were made.
pub record Services : Type 0 where
  pub m_dummy : DNode
  pub m_session_map : ℕ → List ℕ
  pub next_address : ℕ

-- The constructor: a dummy node that holds the root under the empty name.
unfoldable pub init : Services
init = record {
  m_dummy =
      node
        (record {
          address = 0;
          name = [];
          node_data = bytes "dummy";
          type = persistent;
          ephemeral_owner = 0;
          parent = none;
        })
        (entry []
          (node
            (record {
              address = 1;
              name = [];
              node_data = bytes "root";
              type = persistent;
              ephemeral_owner = 0;
              parent = none;
            })
            leaf)
          leaf);
  m_session_map = λ _. [];
  next_address = 2;
}

-- `pathes.back()` and `pathes.pop_back()`, of a vector that is not empty
unfoldable pub back : Names → Bytes
back [] = []
back (x ∷ []) = x
back (x ∷ y ∷ xs) = back (y ∷ xs)

unfoldable pub pop_back : Names → Names
pop_back [] = []
pop_back (x ∷ []) = []
pop_back (x ∷ y ∷ xs) = x ∷ pop_back (y ∷ xs)

abbrev pub status : Bool → Bytes → StatusResponse
status success errmsg = record { success = success; errmsg = errmsg }

abbrev pub failed : Bytes → StatusResponse
failed = status false

-- `curr->children[nodeName] = child`, of a name that is not there
unfoldable pub add_child : Bytes → DNode → DNode → DNode
add_child name child curr = node (info curr) (entry name child (children curr))

-- `curr->children.erase(nodeName)`
unfoldable pub erase_child : Bytes → DNode → DNode
erase_child name curr = node (info curr) (DNode.erase name (children curr))

-- `curr->data = nodeData`
unfoldable pub set_data : Bytes → DNode → DNode
set_data node_data curr = node (record (info curr) { node_data = node_data }) (children curr)

-- `make_shared<DNode>(nodeName, nodeData, nodeType, …, curr->shared_from_this())`
abbrev pub new_info : ℕ → ℕ → Bytes → Bytes → ℕ → ℕ → NodeInfo
new_info address session_id name node_data type parent = record {
  address = address;
  name = name;
  node_data = node_data;
  type = type;
  ephemeral_owner = if type == ephemeral then session_id else 0;
  parent = some parent;
}

-- The last block of `createNode`, with `curr` found at `parent_path`.
unfoldable pub create_under :
    Services → ℕ → Names → DNode → Bytes → Bytes → ℕ → Services × StatusResponse
create_under s session_id parent_path curr name node_data type =
    let child =
      node (new_info s.next_address session_id name node_data type (info curr).address) leaf in
    elim (DNode.find name (children curr)) [
      | some _ ↦ (s, failed (bytes "node already exists"))
      | none ↦ (
        record {
          m_dummy = write_at (add_child name child) parent_path s.m_dummy;
          m_session_map = λ id.
              if (type == ephemeral) && (session_id == id)
              then s.m_session_map id ++ s.next_address ∷ []
              else s.m_session_map id;
          next_address = s.next_address + 1;
        },
        status true [],
      )
    ]

unfoldable pub create_node : Services → ℕ → Bytes → Bytes → ℕ → Services × StatusResponse
create_node s session_id path node_data type =
    let pathes = split_path path in
    if length pathes == 0
    then (s, failed (bytes "path error"))
    else elim (walk s.m_dummy (pop_back pathes)) [
      | none ↦ (s, failed (bytes "path not exists"))
      | some curr ↦ create_under s session_id (pop_back pathes) curr (back pathes) node_data type
    ]

unfoldable pub get_node : Services → Bytes → GetNodeResponse
get_node s path =
    let failed : Bytes → GetNodeResponse =
      λ errmsg. record { success = false; node_data = []; errmsg = errmsg } in
    let pathes = split_path path in
    if length pathes == 0 then failed (bytes "path error") else elim (walk s.m_dummy pathes) [
      | some curr ↦ record { success = true; node_data = (info curr).node_data; errmsg = [] }
      | none ↦ failed (bytes "node not exists")
    ]

unfoldable pub set_node : Services → Bytes → Bytes → Services × StatusResponse
set_node s path node_data =
    let pathes = split_path path in
    if length pathes == 0 then (s, failed (bytes "path error")) else elim (walk s.m_dummy pathes) [
      | some _ ↦
          (record s { m_dummy = write_at (set_data node_data) pathes s.m_dummy }, status true [])
      | none ↦ (s, failed (bytes "node not exists"))
    ]

unfoldable pub delete_node : Services → Bytes → Services × StatusResponse
delete_node s path =
    let pathes = split_path path in
    let missing : Services × StatusResponse = (s, failed (bytes "node not exists")) in
    if length pathes == 0
    then (s, failed (bytes "path error"))
    else if length pathes == 1
    then (s, failed (bytes "delete the root node is not allowed"))
    else elim (walk s.m_dummy (pop_back pathes)) [
      | none ↦ missing
      | some curr ↦ elim (DNode.find (back pathes) (children curr)) [
        | none ↦ missing
        | some _ ↦ (
          record s { m_dummy = write_at (erase_child (back pathes)) (pop_back pathes) s.m_dummy },
          status true [],
        )
      ]
    ]

unfoldable pub ls_node : Services → Bytes → LsNodeResponse
ls_node s path =
    let failed : Bytes → LsNodeResponse =
      λ errmsg. record { success = false; children = []; errmsg = errmsg } in
    let pathes = split_path path in
    if length pathes == 0 then failed (bytes "path error") else elim (walk s.m_dummy pathes) [
      | some curr ↦ record { success = true; children = DNode.keys (children curr); errmsg = [] }
      | none ↦ failed (bytes "node not exists")
    ]

-- A `size_t` that is stored in an `int32` field
abbrev pub int32 : ℕ → ℕ
int32 n = n % 2 ^ 32

unfoldable pub stat_node : Services → Bytes → StatNodeResponse
stat_node s path =
    let failed : Bytes → StatNodeResponse =
      λ errmsg. record { success = false; state = none; errmsg = errmsg } in
    let pathes = split_path path in
    if length pathes == 0 then failed (bytes "path error") else elim (walk s.m_dummy pathes) [
      | some curr ↦ record {
        success = true;
        state = some (record {
          ephemeral_owner = (info curr).ephemeral_owner;
          num_children = int32 (DNode.size (children curr));
          data_length = int32 (length (info curr).node_data);
          node_type = (info curr).type;
        });
        errmsg = [];
      }
      | none ↦ failed (bytes "node not exists")
    ]

unfoldable pub exists_node : Services → Bytes → ExistsNodeResponse
exists_node s path =
    let pathes = split_path path in
    if length pathes == 0
    then record { success = false; exist = false; errmsg = bytes "path error" }
    else record {
      success = true;
      exist = elim (walk s.m_dummy pathes) [ none ↦ false | some _ ↦ true ];
      errmsg = [];
    }

-- One round of `removeEphemeral`, for the `weak_ptr` to an address.
unfoldable pub remove_one : DNode → ℕ → DNode
remove_one root address = elim (DNode.find_node address root) [
  | none ↦ root
  | some n ↦ elim (info n).parent [
    | none ↦ root
    | some parent ↦ DNode.edit_node parent (erase_child (info n).name) root
  ]
]

unfoldable pub remove_all : DNode → List ℕ → DNode
remove_all root [] = root
remove_all root (address ∷ rest) = remove_all (remove_one root address) rest

unfoldable pub remove_ephemeral : Services → ℕ → Services
remove_ephemeral s session_id = record s {
  m_dummy = remove_all s.m_dummy (s.m_session_map session_id);
}

-- The deprecated `removeEphemeral` that walks the whole tree, which nothing calls.
unfoldable mutual
  pub sweep : ℕ → DNode → DNode
  sweep session_id (node i cs) = node i (sweep_children session_id cs)

  pub sweep_children : ℕ → Children → Children
  sweep_children session_id leaf = leaf
  sweep_children session_id (entry name n cs) =
      let swept = sweep session_id n in
      let rest = sweep_children session_id cs in
      if ((info n).type == ephemeral) && ((info n).ephemeral_owner == session_id)
      then rest
      else entry name swept rest

module _ (codecs : ServiceCodecs) where
  unfoldable pub create_node_handler : Services → Bytes → ℕ → Services × Bytes
  create_node_handler s str session_id = elim (codecs.create_request.parse str) [
    | none ↦
        (s, codecs.create_response.serialize (failed (bytes "Create Node Request Parse Error")))
    | some req ↦
        let (s', resp) = create_node s session_id req.path req.node_data req.node_type in
        (s', codecs.create_response.serialize resp)
  ]

  unfoldable pub get_node_handler : Services → Bytes → ℕ → Services × Bytes
  get_node_handler s str session_id = elim (codecs.get_request.parse str) [
    | none ↦ (
      s,
      codecs.get_response.serialize (record {
        success = false;
        node_data = [];
        errmsg = bytes "Get Node Request Parse Error";
      }),
    )
    | some req ↦ (s, codecs.get_response.serialize (get_node s req.path))
  ]

  unfoldable pub set_node_handler : Services → Bytes → ℕ → Services × Bytes
  set_node_handler s str session_id = elim (codecs.set_request.parse str) [
    | none ↦ (s, codecs.set_response.serialize (failed (bytes "Set Node Request Parse Error")))
    | some req ↦
        let (s', resp) = set_node s req.path req.node_data in
        (s', codecs.set_response.serialize resp)
  ]

  unfoldable pub delete_node_handler : Services → Bytes → ℕ → Services × Bytes
  delete_node_handler s str session_id = elim (codecs.delete_request.parse str) [
    | none ↦
        (s, codecs.delete_response.serialize (failed (bytes "Delete Node Request Parse Error")))
    | some req ↦
        let (s', resp) = delete_node s req.path in (s', codecs.delete_response.serialize resp)
  ]

  unfoldable pub ls_node_handler : Services → Bytes → ℕ → Services × Bytes
  ls_node_handler s str session_id = elim (codecs.ls_request.parse str) [
    | none ↦ (
      s,
      codecs.ls_response.serialize
          (record { success = false; children = []; errmsg = bytes "Ls Node Request Parse Error" }),
    )
    | some req ↦ (s, codecs.ls_response.serialize (ls_node s req.path))
  ]

  unfoldable pub stat_node_handler : Services → Bytes → ℕ → Services × Bytes
  stat_node_handler s str session_id = elim (codecs.stat_request.parse str) [
    | none ↦ (
      s,
      codecs.stat_response.serialize (record {
        success = false;
        state = none;
        errmsg = bytes "Stat Node Request Parse Error";
      }),
    )
    | some req ↦ (s, codecs.stat_response.serialize (stat_node s req.path))
  ]

  unfoldable pub exists_node_handler : Services → Bytes → ℕ → Services × Bytes
  exists_node_handler s str session_id = elim (codecs.exists_request.parse str) [
    | none ↦ (
      s,
      codecs.exists_response.serialize (record {
        success = false;
        exist = false;
        errmsg = bytes "Exists Node Request Parse Error";
      }),
    )
    | some req ↦ (s, codecs.exists_response.serialize (exists_node s req.path))
  ]

  -- `m_funcs`, as the constructor fills it.
  abbrev pub funcs : ℕ → Option (Services → Bytes → ℕ → Services × Bytes)
  funcs operation =
      if operation == ServiceType.create
      then some create_node_handler
      else if operation == ServiceType.get
      then some get_node_handler
      else if operation == ServiceType.set
      then some set_node_handler
      else if operation == ServiceType.delete
      then some delete_node_handler
      else if operation == ServiceType.ls
      then some ls_node_handler
      else if operation == ServiceType.stat
      then some stat_node_handler
      else if operation == ServiceType.exists
      then some exists_node_handler
      else none

  unfoldable pub handle : Services → ℕ → Bytes → ℕ → Services × Bytes
  handle s operation str session_id = elim (funcs operation) [
    | some handler ↦ handler s str session_id
    | none ↦ (s, bytes "error")
  ]
