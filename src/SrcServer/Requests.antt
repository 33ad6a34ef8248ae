-- ===== src/SrcServer/Requests.antt =====
-- `onMessage` of the server, branch by branch, for arbitrary bytes.
use dwt_src.Prelude.{
  ℕ, ◌*◌, ◌+◌, ◌≡◌, refl, sym, subst, Bool, true, false, Option, none, some, arith, Option-cases,
  Bool-cases, inl, inr, ◌==◌, ◌&&◌, if◌then◌else◌, ok, Returns, returns, Returns-bind,
}
use dwt_src.Bytes.{Bytes, bytes}
use dwt_src.HeapTimer.{ms, timer_node}
use dwt_src.HeapHeartbeatCounter.{counter_node}
use dwt_src.HeartbeatCounter.{timeout_default, reach_default}
use dwt_src.HeartbeatCounter.Dictionaries
use dwt_src.HeartbeatCounter.Dictionaries.{deadline, missed, limits}
use dwt_src.Messages.{WrappedResponse, ServiceRequest}
use dwt_src.Messages.MessageType
use dwt_src.SessionManager.{exist, exist_lem}
use dwt_src.Services
use dwt_src.SrcServer.{SrcServer, ServerCodecs, on_message, connect, serve}
use dwt_src.SrcServer.Sessions.{IsValid, is_known-missed}

module _ (codecs : ServerCodecs) (drawn now : ℕ) (peer sent : Bytes) (s : SrcServer) where
  -- The bytes ask for a session.
  abbrev pub opens : Bool
  opens = elim (codecs.request.parse sent) [
    | none ↦ false
    | some r ↦ r.request_type == MessageType.connection
  ]

  -- The request of a service in the bytes, if there is one.
  abbrev pub asked : Option ServiceRequest
  asked = elim (codecs.request.parse sent) [
    | none ↦ none
    | some r ↦
        if r.request_type == MessageType.service
        then codecs.service_request.parse r.request_parameters
        else none
  ]

  abbrev pub complaint : Bytes
  complaint = elim (codecs.request.parse sent) [
    | none ↦ bytes "request parse error"
    | some r ↦
        if r.request_type == MessageType.service
        then bytes "service request parse error"
        else bytes "illegal request parameters"
  ]

  abbrev pub served : ServiceRequest → Services.Services × Bytes
  served r =
      Services.handle codecs.services s.services r.service_type r.service_parameters r.session_id

  abbrev pub reply : WrappedResponse
  reply =
      if opens
      then record {
        response_type = MessageType.connection;
        response_data = codecs.connection.serialize (record { session_id = drawn });
      }
      else elim asked [
        | some r ↦ record {
          response_type = MessageType.service;
          response_data =
              codecs.service_response.serialize
                (record { service_type = r.service_type; service_data = (served r).1 });
        }
        | none ↦ record { response_type = MessageType.error; response_data = complaint }
      ]

  pub record Answered (s' : SrcServer) (out : Bytes) : Type 0 where
    pub valid : IsValid s'
    pub replied : out ≡ codecs.response.serialize reply
    pub sessions :
        (k : ℕ)
        → exist s'.m_session_manager k
          ≡ (if opens && (drawn == k) then true else exist s.m_session_manager k)
    pub counts :
        (k : ℕ)
        → missed s'.m_heartbeat_counter k
          ≡ (if opens && (drawn == k) then some 0 else missed s.m_heartbeat_counter k)
    pub deadlines :
        (k : ℕ)
        → deadline s'.m_heartbeat_counter k ≡ (
            if opens && (drawn == k)
            then some (now + s.m_heartbeat_counter.m_timeout * ms)
            else deadline s.m_heartbeat_counter k)
    pub limit : limits s'.m_heartbeat_counter ≡ limits s.m_heartbeat_counter
    pub registry : s'.services ≡ elim asked [ none ↦ s.services | some r ↦ (served r).0 ]

  on_message-opens :
      opens ≡ true → on_message codecs drawn now peer sent s ≡ connect codecs drawn now peer s
  unfolding on_message
  on_message-opens on = elim (Option-cases (codecs.request.parse sent)) [
    | inl e ↦ absurd (ground arith)
    | inr (r, e) ↦ ground arith
  ]

  opens-asked : opens ≡ true → asked ≡ none
  opens-asked on = elim (Option-cases (codecs.request.parse sent)) [
    | inl e ↦ absurd (ground arith)
    | inr (r, e) ↦ ground arith
  ]

  on_message-closed :
      opens ≡ false
      → on_message codecs drawn now peer sent s
        ≡ ok (
          record s { services = elim asked [ none ↦ s.services | some r ↦ (served r).0 ] },
          codecs.response.serialize reply,
        )
  unfolding on_message serve
  on_message-closed off = elim (Option-cases (codecs.request.parse sent)) [
    | inl e ↦ ground arith
    | inr (r, e) ↦ elim (Option-cases (codecs.service_request.parse r.request_parameters)) [
      | inl n ↦ ground arith
      | inr (q, n) ↦ ground arith
    ]
  ]

  -- An answer that opens no session.
  closed :
      (t : Services.Services)
      → IsValid s
      → opens ≡ false
      → t ≡ elim asked [ none ↦ s.services | some r ↦ (served r).0 ]
      → Answered (record s { services = t }) (codecs.response.serialize reply)
  closed t v off registry = record {
    valid = record { heartbeats = v.heartbeats; tracked = v.tracked };
    replied = refl;
    sessions = λ k. rw off refl;
    counts = λ k. rw off refl;
    deadlines = λ k. rw off refl;
    limit = refl;
    registry = registry;
  }

  opened :
      IsValid s
      → opens ≡ true
      → asked ≡ none
      → Returns (λ (s', out). Answered s' out) (connect codecs drawn now peer s)
  unfolding connect
  opened v on quiet =
      Returns-bind (Dictionaries.heartbeat_push_lem s.m_heartbeat_counter v.heartbeats drawn now)
        λ c (cv, counts, deadlines, same). returns (record {
          valid = record {
            heartbeats = cv;
            tracked = λ k. ground (
              arith,
              v.tracked k,
              counts k,
              is_known-missed c k,
              is_known-missed s.m_heartbeat_counter k,
              (exist_lem s.m_session_manager drawn k peer).0,
            );
          };
          replied = rw on refl;
          sessions = λ k. rw on (exist_lem s.m_session_manager drawn k peer).0;
          counts = λ k. rw on (counts k);
          deadlines = λ k. rw on (deadlines k);
          limit = same;
          registry = rw quiet refl;
        })

  -- From a valid state, on any bytes, the server answers and its state is valid again. A request
  -- for a connection opens the drawn session, with a full timeout and no missed heartbeat, and is
  -- told its id. A request for a service is handed to the registry, and its result comes back.
  -- Anything else is answered by the error that fits. Nothing but this is changed.
  pub on_message_lem :
      IsValid s → Returns (λ (s', out). Answered s' out) (on_message codecs drawn now peer sent s)
  on_message_lem v = elim (Bool-cases opens) [
    | inl on ↦
        subst (Returns (λ (s', out). Answered s' out)) (sym (on_message-opens on))
          (opened v on (opens-asked on))
    | inr off ↦
        subst (Returns (λ (s', out). Answered s' out)) (sym (on_message-closed off))
          (returns (closed _ v off refl))
  ]
