-- ===== src/SrcClient/Reads.antt =====
-- The client's requests that read, put together with the server that answers them.
use dwt_src.Prelude.{ℕ, ◌≡◌, refl, none, some, [], arith, if◌then◌else◌, ok, fault}
use dwt_src.Bytes.{Bytes}
use dwt_src.Messages.ServiceType
use dwt_src.Services
use dwt_src.SrcServer.{SrcServer, ServerCodecs}
use dwt_src.SrcClient.{SrcClient, default_state, get_node, ls_node, stat_node, exists_node}
use dwt_src.SrcClient.Calls.{server, Fits, IsReadAtOnce, call_lem, parsed-serialize}

module _ (codecs : ServerCodecs) (drawn now : ℕ) (peer : Bytes) (c : SrcClient)
    (s : SrcServer) where
  -- `getNode` of the client, when one read of the server takes the request
  -- whole and the answer fits the client's buffer, changes nothing on the server and
  -- returns the data of the node, or nothing on a failure.
  pub client_get_lem :
      (path : Bytes)
      → IsReadAtOnce codecs drawn now peer c s
          (codecs.services.get_request.serialize (record { path = path }))
          ServiceType.get
      → Fits codecs drawn now peer c s ServiceType.get
          (s.services, codecs.services.get_response.serialize (Services.get_node s.services path))
      → get_node codecs (server codecs drawn now peer c s) c path s
        ≡ ok (
          s,
          if (Services.get_node s.services path).success
              then (Services.get_node s.services path).node_data
              else [],
        )
  unfolding get_node Services.handle Services.get_node_handler
  client_get_lem path fits h =
      let asks = codecs.services.get_request.parse-serialize (record { path = path }) in
      rw
        (
          call_lem codecs drawn now peer c s
              (codecs.services.get_request.serialize (record { path = path })) ServiceType.get
              (
                s.services,
                codecs.services.get_response.serialize (Services.get_node s.services path),
              )
              (ground (arith, asks)) fits h,
          parsed-serialize codecs.services.get_response (Services.get_node s.services path),
        )
        refl

  -- `lsNode` of the client, when one read of the server takes the request
  -- whole and the answer fits the client's buffer, changes nothing on the server and
  -- returns the names below the node, or none on a failure.
  pub client_ls_lem :
      (path : Bytes)
      → IsReadAtOnce codecs drawn now peer c s
          (codecs.services.ls_request.serialize (record { path = path }))
          ServiceType.ls
      → Fits codecs drawn now peer c s ServiceType.ls
          (s.services, codecs.services.ls_response.serialize (Services.ls_node s.services path))
      → ls_node codecs (server codecs drawn now peer c s) c path s
        ≡ ok (
          s,
          if (Services.ls_node s.services path).success
              then (Services.ls_node s.services path).children
              else [],
        )
  unfolding ls_node Services.handle Services.ls_node_handler
  client_ls_lem path fits h =
      let asks = codecs.services.ls_request.parse-serialize (record { path = path }) in
      rw
        (
          call_lem codecs drawn now peer c s
              (codecs.services.ls_request.serialize (record { path = path })) ServiceType.ls
              (s.services, codecs.services.ls_response.serialize (Services.ls_node s.services path))
              (ground (arith, asks)) fits h,
          parsed-serialize codecs.services.ls_response (Services.ls_node s.services path),
        )
        refl

  -- `statNode` of the client, when one read of the server takes the request
  -- whole and the answer fits the client's buffer, changes nothing on the server and
  -- returns the state of the node, or the default one on a failure.
  pub client_stat_lem :
      (path : Bytes)
      → IsReadAtOnce codecs drawn now peer c s
          (codecs.services.stat_request.serialize (record { path = path }))
          ServiceType.stat
      → Fits codecs drawn now peer c s ServiceType.stat
          (s.services, codecs.services.stat_response.serialize (Services.stat_node s.services path))
      → stat_node codecs (server codecs drawn now peer c s) c path s
        ≡ ok (
          s,
          if (Services.stat_node s.services path).success
              then elim (Services.stat_node s.services path).state [
                | none ↦ default_state
                | some state ↦ state
              ]
              else default_state,
        )
  unfolding stat_node Services.handle Services.stat_node_handler
  client_stat_lem path fits h =
      let asks = codecs.services.stat_request.parse-serialize (record { path = path }) in
      rw
        (
          call_lem codecs drawn now peer c s
              (codecs.services.stat_request.serialize (record { path = path })) ServiceType.stat
              (
                s.services,
                codecs.services.stat_response.serialize (Services.stat_node s.services path),
              )
              (ground (arith, asks)) fits h,
          parsed-serialize codecs.services.stat_response (Services.stat_node s.services path),
        )
        refl

  -- `existsNode` of the client, when one read of the server takes the request
  -- whole and the answer fits the client's buffer, changes nothing on the server and
  -- returns whether the node exists; on a failure its result was never written, a fault.
  pub client_exists_lem :
      (path : Bytes)
      → IsReadAtOnce codecs drawn now peer c s
          (codecs.services.exists_request.serialize (record { path = path }))
          ServiceType.exists
      → Fits codecs drawn now peer c s ServiceType.exists (
        s.services,
        codecs.services.exists_response.serialize (Services.exists_node s.services path),
      )
      → exists_node codecs (server codecs drawn now peer c s) c path s ≡ (
          if (Services.exists_node s.services path).success
          then ok (s, (Services.exists_node s.services path).exist)
          else fault)
  unfolding exists_node Services.handle Services.exists_node_handler
  client_exists_lem path fits h =
      let asks = codecs.services.exists_request.parse-serialize (record { path = path }) in
      rw
        (
          call_lem codecs drawn now peer c s
              (codecs.services.exists_request.serialize (record { path = path })) ServiceType.exists
              (
                s.services,
                codecs.services.exists_response.serialize (Services.exists_node s.services path),
              )
              (ground (arith, asks)) fits h,
          parsed-serialize codecs.services.exists_response (Services.exists_node s.services path),
        )
        refl
