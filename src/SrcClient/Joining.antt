-- ===== src/SrcClient/Joining.antt =====
-- `connect` of the client put together with the server that answers it.
use dwt_src.Prelude.{
  take-all, ℕ, ◌≤◌, ◌≡◌, refl, true, false, some, [], arith, length, Returns, returns, Returns-bind,
}
use dwt_src.Bytes.{Bytes}
use dwt_src.Messages.MessageType
use dwt_src.SrcServer.{SrcServer, ServerCodecs, respond, on_message}
use dwt_src.SrcServer.Sessions.{IsValid}
use dwt_src.SrcServer.Requests.{opens, on_message_lem}
use dwt_src.SessionManager.{exist}
use dwt_src.HeartbeatCounter.Dictionaries.{missed}
use dwt_src.SrcClient.{connect, SrcClient}
use dwt_src.SrcClient.Calls.{parsed-serialize}

module _ (codecs : ServerCodecs) (drawn now : ℕ) (peer : Bytes) (c : SrcClient)
    (s : SrcServer) where
  abbrev pub hello : Bytes
  hello =
      codecs.request.serialize
        (record { request_type = MessageType.connection; request_parameters = [] })

  -- The answer to a request for a connection.
  abbrev pub welcome : Bytes
  welcome =
      respond codecs MessageType.connection
        (codecs.connection.serialize (record { session_id = drawn }))

  hello-opens : opens codecs drawn now peer hello s ≡ true
  hello-opens =
      let asks =
        codecs.request.parse-serialize
          (record { request_type = MessageType.connection; request_parameters = [] }) in
      ground (arith, asks)

  -- `connect` of a client that is not connected, with a server in a valid state and an answer that
  -- fits the buffer: the client is connected with the drawn session, the session exists on the
  -- server with no missed heartbeat, and the server's state is valid.
  pub client_connect_lem :
      (ip : Bytes) (port : ℕ)
      → IsValid s
      → c.m_is_connected ≡ false
      → length welcome ≤ 1024
      → Returns
          (λ (s', (c', connected)).
            IsValid s'
            × (exist s'.m_session_manager drawn ≡ true)
            × (missed s'.m_heartbeat_counter drawn ≡ some 0)
            × (c' ≡ record {
              m_is_connected = true;
              m_server_ip = ip;
              m_server_port = port;
              m_session_id = drawn;
            })
            × (connected ≡ true))
          (connect codecs (on_message codecs drawn now peer) c ip port s)
  unfolding connect
  client_connect_lem ip port v free fits = rw free (
      Returns-bind (on_message_lem codecs drawn now peer hello s v) λ (s', out) a.
        let sent : out ≡ welcome = ground (arith, a.replied, hello-opens) in
        let open_now = hello-opens in
        rw
          (
            sent,
            take-all 1024 welcome (omega arith),
            parsed-serialize codecs.response (record {
              response_type = MessageType.connection;
              response_data = codecs.connection.serialize (record { session_id = drawn });
            }),
            parsed-serialize codecs.connection (record { session_id = drawn }),
          )
          (returns (
            a.valid,
            ground (arith, a.sessions drawn),
            ground (arith, a.counts drawn),
            refl,
            refl,
          )))
