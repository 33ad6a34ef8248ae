-- ===== src/SrcClient/Calls.antt =====
-- The client's requests put together with the server that answers them.
use dwt_src.Prelude.{take, take-all, ℕ, ◌+◌, ◌≤◌, ◌≡◌, refl, arith, length, Outcome, ok}
use dwt_src.Bytes.{Bytes}
use dwt_src.Buffer.{initial_size}
use dwt_src.Messages.{Codec}
use dwt_src.Messages.MessageType
use dwt_src.Messages.ServiceType
use dwt_src.Services
use dwt_src.SrcServer.{SrcServer, ServerCodecs, respond, serve, on_message}
use dwt_src.SrcClient.{
  SrcClient, buf_size, parsed, wrapped_service_string, receive_data, call, create_node, set_node,
  delete_node,
}

pub parsed-serialize :
    {M : Type 0} (codec : Codec M) (m : M) → parsed codec (codec.serialize m) ≡ ok m
parsed-serialize codec m = ground (arith, codec.parse-serialize m)

-- The most bytes that `Buffer::readFd` takes into a new buffer, and so the most that one call of
-- `onMessage` is given: the buffer's own space and `extrabuf`.
abbrev pub one_read : ℕ
one_read = initial_size + 65536

module _ (codecs : ServerCodecs) (drawn now : ℕ) (peer : Bytes) (c : SrcClient)
    (s : SrcServer) where
  -- The server at the other end, up to its answer to the first read, when that takes all that it can
  -- of what was sent.
  abbrev pub server : Bytes → SrcServer → Outcome (SrcServer × Bytes)
  server sent = on_message codecs drawn now peer (take one_read sent)

  -- The request is small enough for one read of the server.
  abbrev pub IsReadAtOnce : Bytes → ℕ → Type 0
  IsReadAtOnce params type = length (wrapped_service_string codecs c params type) ≤ one_read

  -- The bytes with which the server sends the result of a service.
  abbrev pub answer : ℕ → Bytes → Bytes
  answer type result =
      respond codecs MessageType.service
        (codecs.service_response.serialize (record { service_type = type; service_data = result }))

  -- The result is small enough for the client's buffer.
  abbrev pub Fits : ℕ → Services.Services × Bytes → Type 0
  Fits type r = length (answer type r.1) ≤ buf_size

  receive-answer :
      (type : ℕ) (result : Bytes)
      → length (answer type result) ≤ buf_size
      → receive_data codecs (answer type result) ≡ ok result
  unfolding receive_data
  receive-answer type result h =
      let whole = take-all buf_size (answer type result) (omega arith) in
      let outer = codecs.response.parse-serialize (record {
        response_type = MessageType.service;
        response_data =
            codecs.service_response.serialize
              (record { service_type = type; service_data = result });
      }) in
      let inner =
        codecs.service_response.parse-serialize
          (record { service_type = type; service_data = result }) in
      ground (arith, whole, outer, inner)

  on_message-service :
      (params : Bytes) (type : ℕ)
      → IsReadAtOnce params type
      → let r = Services.handle codecs.services s.services type params c.m_session_id in
        server (wrapped_service_string codecs c params type) s
        ≡ ok (record s { services = r.0 }, answer type r.1)
  unfolding wrapped_service_string on_message serve
  on_message-service params type fits =
      let whole = take-all one_read (wrapped_service_string codecs c params type) (omega arith) in
      let inner = codecs.service_request.parse-serialize (record {
        service_type = type;
        service_parameters = params;
        session_id = c.m_session_id;
      }) in
      let outer = codecs.request.parse-serialize (record {
        request_type = MessageType.service;
        request_parameters = codecs.service_request.serialize (record {
          service_type = type;
          service_parameters = params;
          session_id = c.m_session_id;
        });
      }) in
      rw whole (ground (arith, inner, outer))

  pub call_lem :
      (params : Bytes) (type : ℕ) (r : Services.Services × Bytes)
      → Services.handle codecs.services s.services type params c.m_session_id ≡ r
      → IsReadAtOnce params type
      → Fits type r
      → call codecs server c params type s ≡ ok (record s { services = r.0 }, r.1)
  unfolding call
  call_lem params type r e fits h =
      rw (on_message-service params type fits, e, receive-answer type r.1 h) refl

  -- A `createNode` of the client, when one read of the server takes the request
  -- whole and the answer fits the client's buffer, has on the server the effect that
  -- the registry gives the request, and nothing else changes; it tells whether the request succeeded.
  pub client_create_lem :
      (path node_data : Bytes) (type : ℕ)
      → IsReadAtOnce
          (codecs.services.create_request.serialize
            (record { path = path; node_data = node_data; node_type = type }))
          ServiceType.create
      → Fits ServiceType.create (
        (Services.create_node s.services c.m_session_id path node_data type).0,
        codecs.services.create_response.serialize
            (Services.create_node s.services c.m_session_id path node_data type).1,
      )
      → create_node codecs server c path node_data type s
        ≡ ok (
          record s {
            services = (Services.create_node s.services c.m_session_id path node_data type).0;
          },
          (Services.create_node s.services c.m_session_id path node_data type).1.success,
        )
  unfolding create_node Services.handle Services.create_node_handler
  client_create_lem path node_data type fits h =
      let asks =
        codecs.services.create_request.parse-serialize
          (record { path = path; node_data = node_data; node_type = type }) in
      rw
        (
          call_lem
              (codecs.services.create_request.serialize
                (record { path = path; node_data = node_data; node_type = type }))
              ServiceType.create
              (
                (Services.create_node s.services c.m_session_id path node_data type).0,
                codecs.services.create_response.serialize
                    (Services.create_node s.services c.m_session_id path node_data type).1,
              )
              (ground (arith, asks)) fits h,
          parsed-serialize codecs.services.create_response
              (Services.create_node s.services c.m_session_id path node_data type).1,
        )
        refl

  -- A `setNode` of the client, when one read of the server takes the request
  -- whole and the answer fits the client's buffer, has on the server the effect that
  -- the registry gives the request, and nothing else changes; it tells whether the request succeeded.
  pub client_set_lem :
      (path node_data : Bytes)
      → IsReadAtOnce
          (codecs.services.set_request.serialize (record { path = path; node_data = node_data }))
          ServiceType.set
      → Fits ServiceType.set (
        (Services.set_node s.services path node_data).0,
        codecs.services.set_response.serialize (Services.set_node s.services path node_data).1,
      )
      → set_node codecs server c path node_data s
        ≡ ok (
          record s { services = (Services.set_node s.services path node_data).0 },
          (Services.set_node s.services path node_data).1.success,
        )
  unfolding set_node Services.handle Services.set_node_handler
  client_set_lem path node_data fits h =
      let asks =
        codecs.services.set_request.parse-serialize
          (record { path = path; node_data = node_data }) in
      rw
        (
          call_lem
              (codecs.services.set_request.serialize
                (record { path = path; node_data = node_data }))
              ServiceType.set
              (
                (Services.set_node s.services path node_data).0,
                codecs.services.set_response.serialize
                    (Services.set_node s.services path node_data).1,
              )
              (ground (arith, asks)) fits h,
          parsed-serialize codecs.services.set_response
              (Services.set_node s.services path node_data).1,
        )
        refl

  -- A `deleteNode` of the client, when one read of the server takes the request
  -- whole and the answer fits the client's buffer, has on the server the effect that
  -- the registry gives the request, and nothing else changes; it tells whether the request succeeded.
  pub client_delete_lem :
      (path : Bytes)
      → IsReadAtOnce
          (codecs.services.delete_request.serialize (record { path = path }))
          ServiceType.delete
      → Fits ServiceType.delete (
        (Services.delete_node s.services path).0,
        codecs.services.delete_response.serialize (Services.delete_node s.services path).1,
      )
      → delete_node codecs server c path s
        ≡ ok (
          record s { services = (Services.delete_node s.services path).0 },
          (Services.delete_node s.services path).1.success,
        )
  unfolding delete_node Services.handle Services.delete_node_handler
  client_delete_lem path fits h =
      let asks = codecs.services.delete_request.parse-serialize (record { path = path }) in
      rw
        (
          call_lem (codecs.services.delete_request.serialize (record { path = path }))
              ServiceType.delete
              (
                (Services.delete_node s.services path).0,
                codecs.services.delete_response.serialize (Services.delete_node s.services path).1,
              )
              (ground (arith, asks)) fits h,
          parsed-serialize codecs.services.delete_response (Services.delete_node s.services path).1,
        )
        refl
