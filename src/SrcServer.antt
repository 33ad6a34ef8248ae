-- ===== src/SrcServer.antt =====
-- src/SRCServer.h and src/SRCServer.cpp: the dispatch of a request, of a heartbeat and of the death
-- of a session to the session table, the heartbeat counter and the registry. The bytes sent on the
-- connection are a result. The id of a new session is drawn by uuid4.h: an argument.
pub mod Sessions
pub mod Requests
pub mod Runs
use mathlib.Core.Option
use dwt_src.Prelude.{
  ℕ, Bool, true, false, Option, none, some, ◌==◌, if◌then◌else◌, Outcome, ok, ◌>>=◌,
}
use dwt_src.Bytes.{Bytes, bytes}
use dwt_src.Messages.{
  Codec, ServiceCodecs, WrappedRequest, WrappedResponse, ConnectionResponse, ServiceRequest,
  ServiceResponse,
}
use dwt_src.Messages.MessageType
use dwt_src.SessionManager
use dwt_src.HeartbeatCounter
use dwt_src.Services

pub record SrcServer : Type 0 where
  pub m_session_manager : SessionManager.SessionManager
  pub m_heartbeat_counter : HeartbeatCounter.HeartbeatCounter
  pub services : Services.Services

-- The encodings of the messages of a connection.
pub record ServerCodecs : Type 0 where
  pub request : Codec WrappedRequest
  pub response : Codec WrappedResponse
  pub connection : Codec ConnectionResponse
  pub service_request : Codec ServiceRequest
  pub service_response : Codec ServiceResponse
  pub services : ServiceCodecs

-- The constructor.
unfoldable pub init : ℕ → ℕ → SrcServer
init timeout max_heartbeat = record {
  m_session_manager = SessionManager.empty;
  m_heartbeat_counter = HeartbeatCounter.init timeout max_heartbeat;
  services = Services.init;
}

-- `onUDPMessage`: a heartbeat of a session.
unfoldable pub on_udp_message : SrcServer → ℕ → ℕ → Outcome SrcServer
on_udp_message s session_id now =
    if SessionManager.exist s.m_session_manager session_id
    then (do
      heartbeats ← HeartbeatCounter.reset s.m_heartbeat_counter session_id now
      ok (record s { m_heartbeat_counter = heartbeats }))
    else ok s

-- `onHeartbeatReachLimit`, on the session table and the registry.
unfoldable pub on_heartbeat_reach_limit :
    ℕ
    → SessionManager.SessionManager × Services.Services
    → SessionManager.SessionManager × Services.Services
on_heartbeat_reach_limit session_id (sessions, services) =
    (SessionManager.remove sessions session_id, Services.remove_ephemeral services session_id)

-- A `tick` of the thread of heartbeats, with the clock of its loop and that of its callbacks.
unfoldable pub on_tick : (ℕ → ℕ) → (ℕ → ℕ) → SrcServer → Outcome SrcServer
on_tick clock now s = do
  (heartbeats, (sessions, services)) ←
      HeartbeatCounter.tick on_heartbeat_reach_limit clock now
        (s.m_heartbeat_counter, (s.m_session_manager, s.services))
  ok (record {
    m_session_manager = sessions;
    m_heartbeat_counter = heartbeats;
    services = services;
  })

-- One turn of the loop in `ThreadFunc`: `received` is what `recvfrom` stored, if it received
-- something, and `read_id` the session id of the message after `ParseFromArray`, whose result the
-- source does not test. The write of a zero byte to the buffer is left out.
unfoldable pub thread_round :
    (Bytes → ℕ) → (ℕ → ℕ) → (ℕ → ℕ) → ℕ → Option Bytes → SrcServer → Outcome SrcServer
thread_round read_id clock now arrival received s = do
  s' ← on_tick clock now s
  elim received [ none ↦ ok s' | some buf ↦ on_udp_message s' (read_id buf) arrival ]

module _ (codecs : ServerCodecs) where
  abbrev pub respond : ℕ → Bytes → Bytes
  respond response_type response_data =
      codecs.response.serialize
        (record { response_type = response_type; response_data = response_data })

  -- The branch for a new connection: `drawn` is the id of the session.
  unfoldable pub connect : ℕ → ℕ → Bytes → SrcServer → Outcome (SrcServer × Bytes)
  connect drawn now peer s = do
    heartbeats ← HeartbeatCounter.push s.m_heartbeat_counter drawn now
    ok (
      record s {
        m_session_manager = (SessionManager.add s.m_session_manager drawn peer).0;
        m_heartbeat_counter = heartbeats;
      },
      respond MessageType.connection (codecs.connection.serialize (record { session_id = drawn })),
    )

  -- The branch for a request of a service.
  unfoldable pub serve : Bytes → SrcServer → SrcServer × Bytes
  serve parameters s = elim (codecs.service_request.parse parameters) [
    | none ↦ (s, respond MessageType.error (bytes "service request parse error"))
    | some request ↦
        let (services, result) =
          Services.handle codecs.services s.services request.service_type request.service_parameters
            request.session_id in
        (
          record s { services = services },
          respond MessageType.service (
              codecs.service_response.serialize
                (record { service_type = request.service_type; service_data = result })),
        )
  ]

  unfoldable pub on_message : ℕ → ℕ → Bytes → Bytes → SrcServer → Outcome (SrcServer × Bytes)
  on_message drawn now peer data_read s = elim (codecs.request.parse data_read) [
    | none ↦ ok (s, respond MessageType.error (bytes "request parse error"))
    | some request ↦
        if request.request_type == MessageType.connection
        then connect drawn now peer s
        else if request.request_type == MessageType.service
        then ok (serve request.request_parameters s)
        else ok (s, respond MessageType.error (bytes "illegal request parameters"))
  ]
