-- ===== src/Tests/Codecs.antt =====
-- A concrete encoding of every message: each field is a byte string, framed.
use dwt_src.Prelude.{◌≡◌, refl, Bool, true, false, Option, none, some, [], ◌∷◌}
use dwt_src.Bytes.{Bytes, Names}
use dwt_src.Messages.{
  Codec, WrappedRequest, WrappedResponse, ConnectionResponse, ServiceRequest, ServiceResponse,
  CreateNodeRequest, StatusResponse, PathRequest, GetNodeResponse, SetNodeRequest, LsNodeResponse,
  NodeState, StatNodeResponse, ExistsNodeResponse,
}
use dwt_src.SrcServer.{ServerCodecs}
use dwt_src.Tests.Framing.{framed}

abbrev pub flag : Bool → Bytes
flag true = 1 ∷ []
flag false = []

abbrev pub is_set : Bytes → Bool
is_set [] = false
is_set (x ∷ s) = true

abbrev pub wrapped_request_of : Names → Option WrappedRequest
wrapped_request_of ((a ∷ []) ∷ b ∷ []) = some (record { request_type = a; request_parameters = b })
wrapped_request_of _ = none

abbrev pub wrapped_request : Codec WrappedRequest
wrapped_request =
    framed (λ m. (m.request_type ∷ []) ∷ m.request_parameters ∷ []) wrapped_request_of (λ m. refl)

abbrev pub wrapped_response_of : Names → Option WrappedResponse
wrapped_response_of ((a ∷ []) ∷ b ∷ []) = some (record { response_type = a; response_data = b })
wrapped_response_of _ = none

abbrev pub wrapped_response : Codec WrappedResponse
wrapped_response =
    framed (λ m. (m.response_type ∷ []) ∷ m.response_data ∷ []) wrapped_response_of (λ m. refl)

abbrev pub connection_response_of : Names → Option ConnectionResponse
connection_response_of ((a ∷ []) ∷ []) = some (record { session_id = a })
connection_response_of _ = none

abbrev pub connection_response : Codec ConnectionResponse
connection_response = framed (λ m. (m.session_id ∷ []) ∷ []) connection_response_of (λ m. refl)

abbrev pub service_request_of : Names → Option ServiceRequest
service_request_of ((a ∷ []) ∷ b ∷ (c ∷ []) ∷ []) =
    some (record { service_type = a; service_parameters = b; session_id = c })
service_request_of _ = none

abbrev pub service_request : Codec ServiceRequest
service_request =
    framed (λ m. (m.service_type ∷ []) ∷ m.service_parameters ∷ (m.session_id ∷ []) ∷ [])
      service_request_of (λ m. refl)

abbrev pub service_response_of : Names → Option ServiceResponse
service_response_of ((a ∷ []) ∷ b ∷ []) = some (record { service_type = a; service_data = b })
service_response_of _ = none

abbrev pub service_response : Codec ServiceResponse
service_response =
    framed (λ m. (m.service_type ∷ []) ∷ m.service_data ∷ []) service_response_of (λ m. refl)

abbrev pub create_request_of : Names → Option CreateNodeRequest
create_request_of (a ∷ b ∷ (c ∷ []) ∷ []) = some (record { path = a; node_data = b; node_type = c })
create_request_of _ = none

abbrev pub create_request : Codec CreateNodeRequest
create_request =
    framed (λ m. m.path ∷ m.node_data ∷ (m.node_type ∷ []) ∷ []) create_request_of (λ m. refl)

abbrev pub status_response_of : Names → Option StatusResponse
status_response_of (a ∷ b ∷ []) = some (record { success = is_set a; errmsg = b })
status_response_of _ = none

pub status_response_back :
    (a : Bool) (b : Bytes)
    → status_response_of (flag a ∷ b ∷ []) ≡ some (record { success = a; errmsg = b })
status_response_back true b = refl
status_response_back false b = refl

abbrev pub status_response : Codec StatusResponse
status_response =
    framed (λ m. flag m.success ∷ m.errmsg ∷ []) status_response_of
      (λ m. status_response_back m.success m.errmsg)

abbrev pub path_request_of : Names → Option PathRequest
path_request_of (a ∷ []) = some (record { path = a })
path_request_of _ = none

abbrev pub path_request : Codec PathRequest
path_request = framed (λ m. m.path ∷ []) path_request_of (λ m. refl)

abbrev pub get_response_of : Names → Option GetNodeResponse
get_response_of (a ∷ b ∷ c ∷ []) = some (record { success = is_set a; node_data = b; errmsg = c })
get_response_of _ = none

pub get_response_back :
    (a : Bool) (b c : Bytes)
    → get_response_of (flag a ∷ b ∷ c ∷ [])
      ≡ some (record { success = a; node_data = b; errmsg = c })
get_response_back true b c = refl
get_response_back false b c = refl

abbrev pub get_response : Codec GetNodeResponse
get_response =
    framed (λ m. flag m.success ∷ m.node_data ∷ m.errmsg ∷ []) get_response_of
      (λ m. get_response_back m.success m.node_data m.errmsg)

abbrev pub set_request_of : Names → Option SetNodeRequest
set_request_of (a ∷ b ∷ []) = some (record { path = a; node_data = b })
set_request_of _ = none

abbrev pub set_request : Codec SetNodeRequest
set_request = framed (λ m. m.path ∷ m.node_data ∷ []) set_request_of (λ m. refl)

abbrev pub ls_response_of : Names → Option LsNodeResponse
ls_response_of (a ∷ b ∷ c) = some (record { success = is_set a; errmsg = b; children = c })
ls_response_of _ = none

pub ls_response_back :
    (a : Bool) (b : Bytes) (c : Names)
    → ls_response_of (flag a ∷ b ∷ c) ≡ some (record { success = a; errmsg = b; children = c })
ls_response_back true b c = refl
ls_response_back false b c = refl

abbrev pub ls_response : Codec LsNodeResponse
ls_response =
    framed (λ m. flag m.success ∷ m.errmsg ∷ m.children) ls_response_of
      (λ m. ls_response_back m.success m.errmsg m.children)

abbrev pub exists_response_of : Names → Option ExistsNodeResponse
exists_response_of (a ∷ b ∷ c ∷ []) =
    some (record { success = is_set a; exist = is_set b; errmsg = c })
exists_response_of _ = none

pub exists_response_back :
    (a b : Bool) (c : Bytes)
    → exists_response_of (flag a ∷ flag b ∷ c ∷ [])
      ≡ some (record { success = a; exist = b; errmsg = c })
exists_response_back true true c = refl
exists_response_back true false c = refl
exists_response_back false true c = refl
exists_response_back false false c = refl

abbrev pub exists_response : Codec ExistsNodeResponse
exists_response =
    framed (λ m. flag m.success ∷ flag m.exist ∷ m.errmsg ∷ []) exists_response_of
      (λ m. exists_response_back m.success m.exist m.errmsg)

abbrev pub state_names : Option NodeState → Names
state_names none = []
state_names (some s) = (s.ephemeral_owner ∷ s.num_children ∷ s.data_length ∷ s.node_type ∷ []) ∷ []

abbrev pub stat_names : Bool → Bytes → Option NodeState → Names
stat_names success errmsg state = flag success ∷ errmsg ∷ state_names state

abbrev pub stat_response_of : Names → Option StatNodeResponse
stat_response_of (a ∷ b ∷ []) = some (record { success = is_set a; state = none; errmsg = b })
stat_response_of (a ∷ b ∷ (o ∷ n ∷ d ∷ t ∷ []) ∷ []) = some (record {
  success = is_set a;
  state = some (record { ephemeral_owner = o; num_children = n; data_length = d; node_type = t });
  errmsg = b;
})
stat_response_of _ = none

pub stat_response_back :
    (a : Bool) (b : Bytes) (c : Option NodeState)
    → stat_response_of (stat_names a b c) ≡ some (record { success = a; state = c; errmsg = b })
stat_response_back true b none = refl
stat_response_back false b none = refl
stat_response_back true b (some c) = refl
stat_response_back false b (some c) = refl

abbrev pub stat_response : Codec StatNodeResponse
stat_response =
    framed (λ m. stat_names m.success m.errmsg m.state) stat_response_of
      (λ m. stat_response_back m.success m.errmsg m.state)

abbrev pub codecs : ServerCodecs
codecs = record {
  request = wrapped_request;
  response = wrapped_response;
  connection = connection_response;
  service_request = service_request;
  service_response = service_response;
  services = record {
    create_request = create_request;
    create_response = status_response;
    get_request = path_request;
    get_response = get_response;
    set_request = set_request;
    set_response = status_response;
    delete_request = path_request;
    delete_response = status_response;
    ls_request = path_request;
    ls_response = ls_response;
    stat_request = path_request;
    stat_response = stat_response;
    exists_request = path_request;
    exists_response = exists_response;
  };
}
