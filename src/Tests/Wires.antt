-- ===== src/Tests/Wires.antt =====
-- Connections at concrete inputs.
use dwt_src.Prelude.{
  ℕ, suc, ◌*◌, replicate, ◌≡◌, refl, true, false, none, some, List, [], ◌∷◌, ◌++◌, arith, fault,
  Returns, returns,
}
use dwt_src.Bytes.{bytes}
use dwt_src.Buffer.Contents.{init-Shows}
use dwt_src.Channel.{
  Events, k_new, read_event, none_event, write_event, union, is_writing, is_reading,
}
use dwt_src.EpollPoller.{map_at}
use dwt_src.EpollPoller.Registration.{IsPlaced}
use dwt_src.EventLoop.{EventLoop}
use dwt_src.TcpConnection.{
  TcpConnection, Functor, k_connected, k_disconnected, k_disconnecting, is_connected,
  new_connection, send_in_loop, handle_write,
}
use dwt_src.TcpConnection.Handlers.{connect_established, connection_event}
use dwt_src.TcpConnection.Soundness.{Sound, IsSound, connection_event_safe}
use dwt_src.TcpConnection.Streams.{Open}
use dwt_src.TcpConnection.Outputs.{Streams, send_in_loop_lem}
use dwt_src.TcpConnection.Drains.{Wrote, handle_write_lem}
use dwt_src.TcpConnection.Acts.{
  Act, sends, writes, shuts, short_none, short_sends, short_writes, short_shuts,
}
use dwt_src.TcpConnection.Runs.{Good, Went, run, run_lem}
use dwt_src.TcpConnection.Closing.{
  noting, close_and_destroy, close_and_destroy_lem, all_writes, finishes_lem,
}
use dwt_src.TcpConnection.Failures.{failed_write_lem}
use dwt_src.TcpConnection.Starting.{connect_established_lem}
use dwt_src.Tests.Loops.{Watches, watch_at, watching, idle, wired, serving, wired-IsPlaced}

abbrev connected : TcpConnection
connected = record {
  address = 100;
  m_name = bytes "conn";
  m_state = k_connected;
  m_socket = record { accepted = []; write_shut = false };
  m_channel = wired;
  has_write_complete_callback = true;
  has_high_water_mark_callback = false;
  m_high_water_mark = 64 * 1024 * 1024;
  m_input_buffer = dwt_src.Buffer.init;
  m_output_buffer = dwt_src.Buffer.init;
}

connected-Open : Open watching connected serving []
unfolding is_writing
connected-Open = record {
  is_open = refl;
  shows = init-Shows;
  placed = wired-IsPlaced;
  writing = refl;
}

connected-Good : Good watching connected serving []
connected-Good = record { still = connected-Open; phase = refl; shut = refl }

connect_established_lem_example :
    Returns
      (λ (c, l', w').
        Good watching c l' []
        × (is_connected c.m_state ≡ true)
        × (is_reading c.m_channel ≡ true)
        × (c.m_channel.m_tied ≡ true)
        × (c.m_socket.accepted ≡ [])
        × (w' ≡ 1))
      (connect_established watching
        (noting (λ c calls. suc calls) (λ c calls. calls))
        (new_connection 100 (bytes "conn") 200 7, idle, 0))
connect_established_lem_example =
    connect_established_lem watching (λ c calls. suc calls) (λ c calls. calls) 100 200 7
      (bytes "conn") idle 0 refl refl

send_in_loop_lem_example :
    Returns
      (λ (c', l'). Streams watching connected [] (bytes "ping") c' l')
      (send_in_loop watching (some 3) (bytes "ping") (connected, serving))
send_in_loop_lem_example =
    send_in_loop_lem watching 3 (bytes "ping") connected serving [] (omega arith) connected-Open

-- A connection that is to be closed, with four bytes to write.
abbrev both : Events
both = union read_event write_event

abbrev closing : TcpConnection
closing = record connected {
  m_state = k_disconnecting;
  m_channel = record wired { m_events = both };
  m_output_buffer = record {
    m_buffer = replicate 8 0 ++ bytes "ping";
    m_reader_idx = 8;
    m_writer_idx = 12;
  };
}

abbrev draining : EventLoop Watches Functor
draining = record idle {
  m_poller = record {
    m_channels = map_at 7 (some 200) (λ fd. none);
    kernel = watch_at 7 (some (200, both)) (λ fd. none);
    m_events_size = 16;
  };
}

closing-Open : Open watching closing draining (bytes "ping")
unfolding is_writing
closing-Open = record {
  is_open = refl;
  shows = record {
    front = replicate 8 0;
    back = [];
    array = refl;
    reader = refl;
    writer = refl;
    prepend = omega arith;
  };
  placed = record { watch = refl; entry = refl };
  writing = refl;
}

handle_write_lem_example :
    Returns
      (λ (c', l'). Wrote watching 3 closing (bytes "ping") c' l')
      (handle_write watching (some 3) (closing, draining))
handle_write_lem_example = handle_write_lem watching 3 closing draining (bytes "ping") closing-Open

finishes_lem_example :
    Returns
      (λ (c', l'). (c'.m_socket.write_shut ≡ true) × (c'.m_socket.accepted ≡ bytes "ping"))
      (run watching (all_writes (0 ∷ 2 ∷ 0 ∷ 0 ∷ [])) (closing, draining))
finishes_lem_example =
    finishes_lem watching (0 ∷ 2 ∷ 0 ∷ 0 ∷ []) closing draining (bytes "ping")
      (record { still = closing-Open; phase = refl; shut = refl }) refl (omega arith)

abbrev goodbye : List Act
goodbye = sends 3 (bytes "ping") ∷ shuts ∷ sends 9 (bytes "late") ∷ writes 4 ∷ []

run_lem_example :
    Returns
      (λ (c', l'). Went watching connected [] (bytes "ping") false c' l')
      (run watching goodbye (connected, serving))
run_lem_example =
    run_lem watching goodbye connected serving []
      (short_sends (omega arith)
        (short_shuts (short_sends (omega arith) (short_writes short_none))))
      connected-Good

failed_write_lem_example :
    (bytes "ping" ≡ [] → send_in_loop watching none (bytes "pong") (closing, draining) ≡ fault)
    × Returns
        (λ (c', l'). Open watching c' l' [] × (c'.m_socket.accepted ≡ []))
        (handle_write watching none (closing, draining))
failed_write_lem_example =
    failed_write_lem watching (bytes "pong") closing draining (bytes "ping") (omega arith)
      (omega arith) closing-Open

close_and_destroy_lem_example :
    Returns
      (λ (c', l', w').
        (c'.m_state ≡ k_disconnected)
        × (c'.m_channel ≡ record wired { m_events = none_event; m_index = k_new })
        × IsPlaced watching c'.m_channel l'.m_poller
        × (TcpConnection × TcpConnection × TcpConnection × (w' ≡ 2)))
      (close_and_destroy watching (λ c calls. suc calls) (λ c calls. calls) (connected, serving, 0))
close_and_destroy_lem_example =
    close_and_destroy_lem watching (λ c calls. suc calls) (λ c calls. calls) connected serving 0
      wired-IsPlaced

-- The peer closes a connection that has bytes to write, and an error is reported with it.
abbrev closed_by_peer : TcpConnection
closed_by_peer = record closing {
  m_channel = record wired { m_events = both; m_revents = record both { epollerr = true } };
}

closed_by_peer-Sound : Sound watching closed_by_peer draining
unfolding is_writing
closed_by_peer-Sound = record {
  pending = bytes "ping";
  received = [];
  placed = record { watch = refl; entry = refl };
  output = closing-Open.shows;
  input = init-Shows;
  writing = refl;
}

connection_event_safe_example : Returns (IsSound {W = ℕ} watching) (
    connection_event watching
      (noting (λ c calls. suc calls) (λ c calls. calls))
      (some [])
      (some 2)
      (closed_by_peer, draining, 0))
connection_event_safe_example =
    connection_event_safe watching (noting (λ c calls. suc calls) (λ c calls. calls))
      (λ s sound. returns sound) (λ s sound. returns sound) (λ s sound. returns sound) [] 2
      closed_by_peer draining 0 closed_by_peer-Sound
