-- ===== src/SrcClient.antt =====
-- client/src_client.h and client/src_client.cpp: the client library. A request is one exchange with
-- the server: bytes are sent on a new connection and the answer is read. The exchange is an argument,
-- with the state that it changes; sockets and the thread that sends heartbeats are not modelled. A
-- `LOG_FATAL` ends the process: a fault, as is the use of a message that was not parsed.
pub mod Calls
pub mod Reads
pub mod Joining
use mathlib.Core.Option
use dwt_src.Prelude.{
  ℕ, Bool, true, false, Option, none, some, List, [], ◌==◌, if◌then◌else◌, take, Outcome, ok, fault,
  ◌>>=◌,
}
use dwt_src.Bytes.{Bytes}
use dwt_src.Messages.{
  Codec, CreateNodeRequest, SetNodeRequest, PathRequest, StatusResponse, NodeState, ServiceCodecs,
}
use dwt_src.Messages.MessageType
use dwt_src.Messages.ServiceType
use dwt_src.SrcServer.{ServerCodecs}

pub record SrcClient : Type 0 where
  pub m_is_connected : Bool
  pub m_server_ip : Bytes
  pub m_server_port : ℕ
  pub m_session_id : ℕ

abbrev pub buf_size : ℕ
buf_size = 65536

unfoldable pub disconnect : SrcClient → SrcClient
disconnect c =
    if c.m_is_connected
    then record { m_is_connected = false; m_server_ip = []; m_server_port = 0; m_session_id = 0 }
    else c

-- A message that must parse.
abbrev pub parsed : {M : Type 0} → Codec M → Bytes → Outcome M
parsed codec s = elim (codec.parse s) [ none ↦ fault | some m ↦ ok m ]

-- A message with no field set.
abbrev pub default_state : NodeState
default_state = record { ephemeral_owner = 0; num_children = 0; data_length = 0; node_type = 0 }

module _ (codecs : ServerCodecs) where
  unfoldable pub wrapped_service_string : SrcClient → Bytes → ℕ → Bytes
  wrapped_service_string c request_str type = codecs.request.serialize (record {
    request_type = MessageType.service;
    request_parameters = codecs.service_request.serialize (record {
      service_type = type;
      service_parameters = request_str;
      session_id = c.m_session_id;
    });
  })

  -- `receiveData`, on the bytes that the server sent: one `read` takes what fits in the buffer.
  unfoldable pub receive_data : Bytes → Outcome Bytes
  receive_data sent = do
    wres ← parsed codecs.response (take buf_size sent)
    let answer : Outcome Bytes =
        parsed codecs.service_response wres.response_data >>= λ sres. ok sres.service_data
    (if wres.response_type == MessageType.error
        then fault
        else if wres.response_type == MessageType.service
        then answer
        else ok [])

  module _ {S : Type 0} (exchange : Bytes → S → Outcome (S × Bytes)) where
    -- The part of `connect` that talks to the server.
    unfoldable pub connect : SrcClient → Bytes → ℕ → S → Outcome (S × (SrcClient × Bool))
    connect c ip port s =
        let talk : Outcome (S × (SrcClient × Bool)) = do
          (s', sent) ←
              exchange
                (codecs.request.serialize
                  (record { request_type = MessageType.connection; request_parameters = [] }))
                s
          res ← parsed codecs.response (take 1024 sent)
          let joined : ℕ → SrcClient = λ session_id. record {
            m_is_connected = true;
            m_server_ip = ip;
            m_server_port = port;
            m_session_id = session_id;
          }
          let answer : Outcome (S × (SrcClient × Bool)) =
              parsed codecs.connection res.response_data >>= λ resp.
              ok (s', (joined resp.session_id, true))
          (if res.response_type == MessageType.connection
              then answer
              else if res.response_type == MessageType.error
              then fault
              else ok (s', (joined c.m_session_id, true)))
        in if c.m_is_connected then ok (s, (c, false)) else talk

    -- What all requests share: `sendData(wrappedServiceString(…))` and `receiveData`.
    unfoldable pub call : SrcClient → Bytes → ℕ → S → Outcome (S × Bytes)
    call c request_str type s = do
      (s', sent) ← exchange (wrapped_service_string c request_str type) s
      receive_str ← receive_data sent
      ok (s', receive_str)

    unfoldable pub create_node : SrcClient → Bytes → Bytes → ℕ → S → Outcome (S × Bool)
    create_node c path node_data type s = do
      (s', str) ←
          call c
            (codecs.services.create_request.serialize
              (record { path = path; node_data = node_data; node_type = type }))
            ServiceType.create s
      resp ← parsed codecs.services.create_response str
      ok (s', resp.success)

    unfoldable pub get_node : SrcClient → Bytes → S → Outcome (S × Bytes)
    get_node c path s = do
      (s', str) ←
          call c (codecs.services.get_request.serialize (record { path = path })) ServiceType.get s
      resp ← parsed codecs.services.get_response str
      ok (s', if resp.success then resp.node_data else [])

    unfoldable pub set_node : SrcClient → Bytes → Bytes → S → Outcome (S × Bool)
    set_node c path node_data s = do
      (s', str) ←
          call c
            (codecs.services.set_request.serialize (record { path = path; node_data = node_data }))
            ServiceType.set s
      resp ← parsed codecs.services.set_response str
      ok (s', resp.success)

    unfoldable pub delete_node : SrcClient → Bytes → S → Outcome (S × Bool)
    delete_node c path s = do
      (s', str) ←
          call c (codecs.services.delete_request.serialize (record { path = path }))
            ServiceType.delete s
      resp ← parsed codecs.services.delete_response str
      ok (s', resp.success)

    unfoldable pub ls_node : SrcClient → Bytes → S → Outcome (S × List Bytes)
    ls_node c path s = do
      (s', str) ←
          call c (codecs.services.ls_request.serialize (record { path = path })) ServiceType.ls s
      resp ← parsed codecs.services.ls_response str
      ok (s', if resp.success then resp.children else [])

    unfoldable pub stat_node : SrcClient → Bytes → S → Outcome (S × NodeState)
    stat_node c path s = do
      (s', str) ←
          call c (codecs.services.stat_request.serialize (record { path = path })) ServiceType.stat
            s
      resp ← parsed codecs.services.stat_response str
      let state : NodeState = elim resp.state [ none ↦ default_state | some state ↦ state ]
      ok (s', if resp.success then state else default_state)

    -- On a failure the result was never written.
    unfoldable pub exists_node : SrcClient → Bytes → S → Outcome (S × Bool)
    exists_node c path s = do
      (s', str) ←
          call c (codecs.services.exists_request.serialize (record { path = path }))
            ServiceType.exists s
      resp ← parsed codecs.services.exists_response str
      if resp.success then ok (s', resp.exist) else fault
