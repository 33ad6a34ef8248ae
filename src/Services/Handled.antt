-- ===== src/Services/Handled.antt =====
-- `handle` of src/Services.cpp on requests that were encoded.
use dwt_src.Prelude.{ℕ, ◌≡◌, arith}
use dwt_src.Bytes.{Bytes}
use dwt_src.Messages.{ServiceCodecs}
use dwt_src.Messages.ServiceType
use dwt_src.Services.{
  Services, handle, create_node, get_node, set_node, delete_node, ls_node, stat_node, exists_node,
  create_node_handler, get_node_handler, set_node_handler, delete_node_handler, ls_node_handler,
  stat_node_handler, exists_node_handler,
}

module _ (codecs : ServiceCodecs) (s : Services) where
  pub handle-create :
      (path content : Bytes) (type session_id : ℕ)
      → handle codecs s ServiceType.create
          (codecs.create_request.serialize
            (record { path = path; node_data = content; node_type = type }))
          session_id
        ≡ (
          (create_node s session_id path content type).0,
          codecs.create_response.serialize (create_node s session_id path content type).1,
        )
  unfolding handle create_node_handler
  handle-create path content type session_id =
      let asks =
        codecs.create_request.parse-serialize
          (record { path = path; node_data = content; node_type = type }) in
      ground (arith, asks)

  pub handle-get :
      (path : Bytes) (session_id : ℕ)
      → handle codecs s ServiceType.get
          (codecs.get_request.serialize (record { path = path }))
          session_id
        ≡ (s, codecs.get_response.serialize (get_node s path))
  unfolding handle get_node_handler
  handle-get path session_id =
      let asks = codecs.get_request.parse-serialize (record { path = path }) in ground (arith, asks)

  pub handle-set :
      (path content : Bytes) (session_id : ℕ)
      → handle codecs s ServiceType.set
          (codecs.set_request.serialize (record { path = path; node_data = content }))
          session_id
        ≡ ((set_node s path content).0, codecs.set_response.serialize (set_node s path content).1)
  unfolding handle set_node_handler
  handle-set path content session_id =
      let asks = codecs.set_request.parse-serialize (record { path = path; node_data = content }) in
      ground (arith, asks)

  pub handle-delete :
      (path : Bytes) (session_id : ℕ)
      → handle codecs s ServiceType.delete
          (codecs.delete_request.serialize (record { path = path }))
          session_id
        ≡ ((delete_node s path).0, codecs.delete_response.serialize (delete_node s path).1)
  unfolding handle delete_node_handler
  handle-delete path session_id =
      let asks = codecs.delete_request.parse-serialize (record { path = path }) in
      ground (arith, asks)

  pub handle-ls :
      (path : Bytes) (session_id : ℕ)
      → handle codecs s ServiceType.ls
          (codecs.ls_request.serialize (record { path = path }))
          session_id
        ≡ (s, codecs.ls_response.serialize (ls_node s path))
  unfolding handle ls_node_handler
  handle-ls path session_id =
      let asks = codecs.ls_request.parse-serialize (record { path = path }) in ground (arith, asks)

  pub handle-stat :
      (path : Bytes) (session_id : ℕ)
      → handle codecs s ServiceType.stat
          (codecs.stat_request.serialize (record { path = path }))
          session_id
        ≡ (s, codecs.stat_response.serialize (stat_node s path))
  unfolding handle stat_node_handler
  handle-stat path session_id =
      let asks = codecs.stat_request.parse-serialize (record { path = path }) in
      ground (arith, asks)

  pub handle-exists :
      (path : Bytes) (session_id : ℕ)
      → handle codecs s ServiceType.exists
          (codecs.exists_request.serialize (record { path = path }))
          session_id
        ≡ (s, codecs.exists_response.serialize (exists_node s path))
  unfolding handle exists_node_handler
  handle-exists path session_id =
      let asks = codecs.exists_request.parse-serialize (record { path = path }) in
      ground (arith, asks)
