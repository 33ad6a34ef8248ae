-- ===== src/Tests/Registry.antt =====
-- Paths and the registry at concrete inputs.
use dwt_src.Prelude.{◌&&◌, not, if◌then◌else◌, ◌≡◌, ◌≢◌, inr, refl, subst, true, [], ◌∷◌, arith}
use dwt_src.Bytes.{Bytes, bytes, names_eq}
use dwt_src.DNode.{ephemeral}
use dwt_src.DNode.Walk.{goes_through}
use dwt_src.Services.{Services, create_node, delete_node, set_node, get_node, exists_node, init}
use dwt_src.Services.Methods.{
  Created, Deleted, Written, create_node_lem, delete_node_lem, set_node_lem,
}
use dwt_src.Services.ReadBack.{get_after_set, exists_after_delete}
use dwt_src.Services.PathSplit.{split_path}
use dwt_src.Services.PathSplit.RoundTrip.{print, IsPath, split_path-print}
use dwt_src.Services.PathSplit.Shape.{Prints, split_path_shape}

-- "/user"
abbrev user : Bytes
user = bytes "/user"

split_user : split_path user ≡ [] ∷ bytes "user" ∷ []
unfolding split_path
split_user = refl

abbrev served : Services
served = (create_node init 3 user (bytes "x") ephemeral).0

create_node_lem_example :
    Created init 3
      ([] ∷ [])
      (bytes "user")
      (bytes "x")
      ephemeral
      (create_node init 3 user (bytes "x") ephemeral)
create_node_lem_example =
    create_node_lem init 3 user (bytes "x") ephemeral ([] ∷ []) (bytes "user") split_user

delete_node_lem_example : Deleted served ([] ∷ []) (bytes "user") (delete_node served user)
delete_node_lem_example = delete_node_lem served user ([] ∷ []) (bytes "user") split_user

user-there : split_path user ≢ []
user-there = λ e. ground (arith, split_user)

set_node_lem_example :
    Written served (split_path user) (bytes "y") (set_node served user (bytes "y"))
set_node_lem_example = set_node_lem served user (bytes "y") user-there

get_after_set_example :
    let r = set_node served user (bytes "y") in
    (r.1.success ≡ (exists_node served user).exist)
    × (get_node r.0 user ≡ (
        if (exists_node served user).exist && names_eq (split_path user) (split_path user)
        then record { success = true; node_data = bytes "y"; errmsg = [] }
        else get_node served user))
get_after_set_example = get_after_set served user user (bytes "y") user-there user-there

exists_after_delete_example :
    let r = delete_node served user in
    (r.1.success ≡ true → (exists_node served user).exist ≡ true)
    × ((exists_node r.0 user).exist ≡ (
        (exists_node served user).exist
        && not (r.1.success && goes_through (split_path user) (split_path user))))
exists_after_delete_example =
    exists_after_delete served user user ([] ∷ []) (bytes "user") split_user user-there

user-IsPath : IsPath ([] ∷ bytes "user" ∷ [])
user-IsPath = subst IsPath split_user (split_path_shape user user-there).0

split_path-print_example : split_path (print true ([] ∷ bytes "user" ∷ [])) ≡ [] ∷ bytes "user" ∷ []
unfolding print
split_path-print_example =
    split_path-print true ([] ∷ bytes "user" ∷ []) user-IsPath (inr (λ e. cc))

split_path_shape_example : IsPath (split_path user) × Prints user (split_path user)
split_path_shape_example = split_path_shape user user-there
