-- ===== src/Tests/Client.antt =====
-- The client at concrete inputs, against the server.
use dwt_src.Prelude.{◌≤◌, ◌≡◌, refl, true, false, some, [], arith, length, ok, Returns}
use dwt_src.Bytes.{Bytes, bytes}
use dwt_src.DNode.{persistent}
use dwt_src.HeartbeatCounter.Dictionaries.{missed}
use dwt_src.Messages.ServiceType
use dwt_src.Services
use dwt_src.SessionManager.{exist}
use dwt_src.SrcServer.{SrcServer, on_message, init}
use dwt_src.SrcServer.Sessions.{IsValid}
use dwt_src.SrcServer.Runs.{init-IsValid}
use dwt_src.SrcClient
use dwt_src.SrcClient.{SrcClient, default_state}
use dwt_src.SrcClient.Calls.{server, IsReadAtOnce, Fits, client_create_lem}
use dwt_src.SrcClient.Joining.{welcome, client_connect_lem}
use dwt_src.Tests.Codecs.{codecs}
use dwt_src.Tests.Framing.{pack}

abbrev pub peer : Bytes
peer = bytes "10.0.0.1:80"

abbrev pub fresh : SrcServer
fresh = init 12000 5

abbrev pub away : SrcClient
away = record { m_is_connected = false; m_server_ip = []; m_server_port = 0; m_session_id = 0 }

abbrev user : Bytes
user = bytes "/user"

create-Fits : Fits codecs 7 5 peer away fresh ServiceType.create (
  (Services.create_node fresh.services 0 user (bytes "x") persistent).0,
  codecs.services.create_response.serialize
      (Services.create_node fresh.services 0 user (bytes "x") persistent).1,
)
unfolding pack init Services.init Services.PathSplit.split_path Services.back Services.pop_back
    Services.add_child Services.set_data Services.erase_child dwt_src.DNode.Walk.walk
    dwt_src.DNode.find dwt_src.Bytes.bytes_eq Services.create_under Services.create_node
create-Fits = omega arith

create-IsReadAtOnce :
    IsReadAtOnce codecs 7 5 peer away fresh
      (codecs.services.create_request.serialize
        (record { path = user; node_data = bytes "x"; node_type = persistent }))
      ServiceType.create
unfolding pack SrcClient.wrapped_service_string
create-IsReadAtOnce = omega arith

client_create_lem_example :
    SrcClient.create_node codecs
      (server codecs 7 5 peer away fresh)
      away
      user
      (bytes "x")
      persistent
      fresh
    ≡ ok (
      record fresh {
        services = (Services.create_node fresh.services 0 user (bytes "x") persistent).0;
      },
      (Services.create_node fresh.services 0 user (bytes "x") persistent).1.success,
    )
client_create_lem_example =
    client_create_lem codecs 7 5 peer away fresh user (bytes "x") persistent create-IsReadAtOnce
      create-Fits

set-Fits : Fits codecs 7 5 peer away fresh ServiceType.set (
  (Services.set_node fresh.services user (bytes "y")).0,
  codecs.services.set_response.serialize (Services.set_node fresh.services user (bytes "y")).1,
)
unfolding pack init Services.init Services.PathSplit.split_path Services.back Services.pop_back
    Services.add_child Services.set_data Services.erase_child dwt_src.DNode.Walk.walk
    dwt_src.DNode.find dwt_src.Bytes.bytes_eq Services.create_node Services.create_under
    Services.set_node
set-Fits = omega arith

delete-Fits : Fits codecs 7 5 peer away fresh ServiceType.delete (
  (Services.delete_node fresh.services user).0,
  codecs.services.delete_response.serialize (Services.delete_node fresh.services user).1,
)
unfolding pack init Services.init Services.PathSplit.split_path Services.back Services.pop_back
    Services.add_child Services.set_data Services.erase_child dwt_src.DNode.Walk.walk
    dwt_src.DNode.find dwt_src.Bytes.bytes_eq Services.create_node Services.create_under
    Services.delete_node
delete-Fits = omega arith

get-Fits :
    Fits codecs 7 5 peer away fresh ServiceType.get (
      fresh.services,
      codecs.services.get_response.serialize (Services.get_node fresh.services user),
    )
unfolding pack init Services.init Services.PathSplit.split_path Services.back Services.pop_back
    Services.add_child Services.set_data Services.erase_child dwt_src.DNode.Walk.walk
    dwt_src.DNode.find dwt_src.Bytes.bytes_eq Services.create_node Services.create_under
    Services.get_node
get-Fits = omega arith

ls-Fits :
    Fits codecs 7 5 peer away fresh ServiceType.ls
      (fresh.services, codecs.services.ls_response.serialize (Services.ls_node fresh.services user))
unfolding pack init Services.init Services.PathSplit.split_path Services.back Services.pop_back
    Services.add_child Services.set_data Services.erase_child dwt_src.DNode.Walk.walk
    dwt_src.DNode.find dwt_src.Bytes.bytes_eq Services.create_node Services.create_under
    Services.ls_node
ls-Fits = omega arith

stat-Fits : Fits codecs 7 5 peer away fresh ServiceType.stat (
  fresh.services,
  codecs.services.stat_response.serialize (Services.stat_node fresh.services user),
)
unfolding pack init Services.init Services.PathSplit.split_path Services.back Services.pop_back
    Services.add_child Services.set_data Services.erase_child dwt_src.DNode.Walk.walk
    dwt_src.DNode.find dwt_src.Bytes.bytes_eq Services.create_node Services.create_under
    Services.stat_node
stat-Fits = omega arith

exists_Fits : Fits codecs 7 5 peer away fresh ServiceType.exists (
  fresh.services,
  codecs.services.exists_response.serialize (Services.exists_node fresh.services user),
)
unfolding pack init Services.init Services.PathSplit.split_path Services.back Services.pop_back
    Services.add_child Services.set_data Services.erase_child dwt_src.DNode.Walk.walk
    dwt_src.DNode.find dwt_src.Bytes.bytes_eq Services.create_node Services.create_under
    Services.exists_node
exists_Fits = omega arith

welcome_fits : length (welcome codecs 7 5 peer away fresh) ≤ 1024
unfolding pack
welcome_fits = omega arith

client_connect_lem_example :
    Returns
      (λ (s', (c', connected)).
        IsValid s'
        × (exist s'.m_session_manager 7 ≡ true)
        × (missed s'.m_heartbeat_counter 7 ≡ some 0)
        × (c' ≡ record {
          m_is_connected = true;
          m_server_ip = peer;
          m_server_port = 80;
          m_session_id = 7;
        })
        × (connected ≡ true))
      (SrcClient.connect codecs (on_message codecs 7 5 peer) away peer 80 fresh)
client_connect_lem_example =
    client_connect_lem codecs 7 5 peer away fresh peer 80 (init-IsValid 12000 5) refl welcome_fits
