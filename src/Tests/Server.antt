-- ===== src/Tests/Server.antt =====
-- The server at concrete inputs: a client connects, sends heartbeats, and falls silent.
use dwt_src.Prelude.{
  ℕ, ◌+◌, ◌*◌, ◌≡◌, some, List, [], ◌∷◌, ◌==◌, ◌&&◌, if◌then◌else◌, ok, Returns, Returns-inv,
}
use dwt_src.Bytes.{Bytes, bytes}
use dwt_src.HeapTimer.{ms}
use dwt_src.HeartbeatCounter
use dwt_src.HeartbeatCounter.Dictionaries
use dwt_src.HeartbeatCounter.Dictionaries.{
  deadline, missed, limits, heartbeat_push_lem, heartbeat_reset_lem,
}
use dwt_src.HeartbeatCounter.Rounds.{Ticked}
use dwt_src.HeartbeatCounter.Fates.{heartbeat_tick_lem}
use dwt_src.Messages.MessageType
use dwt_src.SessionManager.{exist}
use dwt_src.SrcServer.{SrcServer, init, on_message, on_udp_message, on_tick}
use dwt_src.SrcServer.Sessions.{IsValid, Round, on_tick_lem, on_udp_message_lem}
use dwt_src.SrcServer.Requests.{Answered, on_message_lem}
use dwt_src.SrcServer.Runs.{init-IsValid, heartbeat, react, started, react_safe}
use dwt_src.Tests.Codecs.{codecs}

-- A request for a connection, and a server that gives up after one missed heartbeat.
abbrev hello : Bytes
hello =
    codecs.request.serialize
      (record { request_type = MessageType.connection; request_parameters = [] })

abbrev strict : SrcServer
strict = init 12000 1

strict-IsValid : IsValid strict
strict-IsValid = init-IsValid 12000 1

on_message_lem_example :
    Returns
      (λ (s', out). Answered codecs 7 5 (bytes "10.0.0.1:80") hello strict s' out)
      (on_message codecs 7 5 (bytes "10.0.0.1:80") hello strict)
on_message_lem_example = on_message_lem codecs 7 5 (bytes "10.0.0.1:80") hello strict strict-IsValid

-- The server after it.
abbrev greeted :
    (r : SrcServer × Bytes) × (on_message codecs 7 5 (bytes "10.0.0.1:80") hello strict ≡ ok r)
    × Answered codecs 7 5 (bytes "10.0.0.1:80") hello strict r.0 r.1
greeted = Returns-inv (on_message_lem codecs 7 5 (bytes "10.0.0.1:80") hello strict strict-IsValid)

abbrev joined : SrcServer
joined = greeted.0.0

joined-IsValid : IsValid joined
joined-IsValid = greeted.2.valid

abbrev counter : HeartbeatCounter.HeartbeatCounter
counter = joined.m_heartbeat_counter

on_udp_message_lem_example :
    Returns
      (λ s'.
        IsValid s'
        × (s'.m_session_manager ≡ joined.m_session_manager)
        × (s'.services ≡ joined.services)
        × ((k : ℕ)
            → missed s'.m_heartbeat_counter k
              ≡ (if (7 == k) && exist joined.m_session_manager 7 then some 0 else missed counter k))
        × ((k : ℕ)
            → deadline s'.m_heartbeat_counter k ≡ (
                if (7 == k) && exist joined.m_session_manager 7
                then some (100 + counter.m_timeout * ms)
                else deadline counter k)))
      (on_udp_message joined 7 100)
on_udp_message_lem_example = on_udp_message_lem joined joined-IsValid 7 100

-- A clock that is late for every session of `joined`.
abbrev late : ℕ → ℕ
late round = 20000 * ms + round

react_safe_example :
    IsValid strict × ((s' : SrcServer) × (react codecs (heartbeat 7 100) strict ≡ ok s'))
react_safe_example = react_safe codecs (heartbeat 7 100) started

heartbeat_push_lem_example :
    Returns
      (λ c'.
        Dictionaries.IsValid c'
        × ((k : ℕ) → missed c' k ≡ (if 9 == k then some 0 else missed counter k))
        × ((k : ℕ)
            → deadline c' k
              ≡ (if 9 == k then some (100 + counter.m_timeout * ms) else deadline counter k))
        × (limits c' ≡ limits counter))
      (HeartbeatCounter.push counter 9 100)
heartbeat_push_lem_example = heartbeat_push_lem counter joined-IsValid.heartbeats 9 100

-- Who was given up.
abbrev note : ℕ → List ℕ → List ℕ
note id ids = id ∷ ids

heartbeat_tick_lem_example :
    Returns
      (λ (c', w'). Ticked note late late counter [] c' w')
      (HeartbeatCounter.tick note late late (counter, []))
heartbeat_tick_lem_example = heartbeat_tick_lem note late late counter [] joined-IsValid.heartbeats

abbrev after : (s' : SrcServer) × (on_tick late late joined ≡ ok s') × Round late late joined s'
after = Returns-inv (on_tick_lem joined joined-IsValid late late)
