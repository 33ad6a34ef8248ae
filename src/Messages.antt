-- ===== src/Messages.antt =====
-- src/proto/messages.proto: the messages of the protocol, with the accessors that the program uses
-- as fields. The enums are open, so a value is its number; an `int32` is its bit pattern. How a
-- message is written as bytes is the work of the protobuf library: a `Codec` for each message.
pub mod MessageType
pub mod ServiceType
use dwt_src.Prelude.{ℕ, Bool, Option, some, List, ◌≡◌}
use dwt_src.Bytes.{Bytes}

-- What protobuf documents of `ParseFromString` and `SerializeAsString`.
pub record Codec (M : Type 0) : Type 0 where
  pub parse : Bytes → Option M
  pub serialize : M → Bytes
  pub parse-serialize : (m : M) → parse (serialize m) ≡ some m

pub record WrappedRequest : Type 0 where
  pub request_type : ℕ
  pub request_parameters : Bytes

pub record WrappedResponse : Type 0 where
  pub response_type : ℕ
  pub response_data : Bytes

pub record ConnectionResponse : Type 0 where
  pub session_id : ℕ

pub record HeartbeatMessage : Type 0 where
  pub session_id : ℕ

pub record ServiceRequest : Type 0 where
  pub service_type : ℕ
  pub service_parameters : Bytes
  pub session_id : ℕ

pub record ServiceResponse : Type 0 where
  pub service_type : ℕ
  pub service_data : Bytes

pub record CreateNodeRequest : Type 0 where
  pub path : Bytes
  pub node_data : Bytes
  pub node_type : ℕ

-- The response to `Create`, `Set` and `Delete`.
pub record StatusResponse : Type 0 where
  pub success : Bool
  pub errmsg : Bytes

-- The request of `Get`, `Delete`, `Ls`, `Stat` and `Exists`.
pub record PathRequest : Type 0 where
  pub path : Bytes

pub record GetNodeResponse : Type 0 where
  pub success : Bool
  pub node_data : Bytes
  pub errmsg : Bytes

pub record SetNodeRequest : Type 0 where
  pub path : Bytes
  pub node_data : Bytes

pub record LsNodeResponse : Type 0 where
  pub success : Bool
  pub children : List Bytes
  pub errmsg : Bytes

pub record NodeState : Type 0 where
  pub ephemeral_owner : ℕ
  pub num_children : ℕ
  pub data_length : ℕ
  pub node_type : ℕ

-- The message field `state` is absent unless it was set.
pub record StatNodeResponse : Type 0 where
  pub success : Bool
  pub state : Option NodeState
  pub errmsg : Bytes

pub record ExistsNodeResponse : Type 0 where
  pub success : Bool
  pub exist : Bool
  pub errmsg : Bytes

-- The encodings of the request parameters and of the responses.
pub record ServiceCodecs : Type 0 where
  pub create_request : Codec CreateNodeRequest
  pub create_response : Codec StatusResponse
  pub get_request : Codec PathRequest
  pub get_response : Codec GetNodeResponse
  pub set_request : Codec SetNodeRequest
  pub set_response : Codec StatusResponse
  pub delete_request : Codec PathRequest
  pub delete_response : Codec StatusResponse
  pub ls_request : Codec PathRequest
  pub ls_response : Codec LsNodeResponse
  pub stat_request : Codec PathRequest
  pub stat_response : Codec StatNodeResponse
  pub exists_request : Codec PathRequest
  pub exists_response : Codec ExistsNodeResponse
