-- ===== src/Tests/Connections.antt =====
-- The connections of a server, and the ids of sessions, at concrete inputs.
use dwt_src.Prelude.{suc, inl, ◌≡◌, ◌≢◌, refl, true, false, none, [], ◌∷◌, arith, Returns}
use dwt_src.Bytes.{Bytes, bytes}
use dwt_src.TcpConnection.{destroyed_functor}
use dwt_src.TcpServer.{TcpServer, Held, find_connection, new_connection, remove_connection_in_loop}
use dwt_src.TcpServer.Connections.{Numbered, Accepted, new_connection_lem, remove_connection_lem}
use dwt_src.TcpConnection.Closing.{noting}
use dwt_src.Tests.Loops.{Watches, idle, watching}
use dwt_src.Uuid4.{xorshift128plus}

-- A server with two loops, which has accepted nothing yet.
abbrev listening : TcpServer
listening = record {
  m_ip_port = bytes "127.0.0.1:8888";
  m_thread_pool = record {
    m_base_loop = 9;
    m_started = true;
    m_num_threads = 2;
    m_next = 1;
    m_loops = 4 ∷ 5 ∷ [];
  };
  has_write_complete_callback = false;
  m_started = 1;
  m_connections = [];
  m_next_conn_id = 1;
}

listening-Numbered : Numbered listening
unfolding find_connection
listening-Numbered = record { given = λ name held e. absurd (cc) }

-- In the loop's own thread.
new_connection_lem_example :
    Returns
      (λ (t', loops', w', conn, io_loop).
        Accepted watching
          (λ c calls. suc calls)
          (λ c calls. calls)
          listening
          (λ io_loop. idle)
          0
          100
          true
          t'
          loops'
          w'
          conn
          io_loop)
      (new_connection watching
        (noting (λ c calls. suc calls) (λ c calls. calls))
        100
        200
        7
        true
        (listening, λ io_loop. idle, 0))
new_connection_lem_example =
    new_connection_lem watching (λ c calls. suc calls) (λ c calls. calls) 100 200 7 true listening
      (λ io_loop. idle) 0 listening-Numbered (omega arith) (inl (omega arith))
      (λ io_loop. (refl, refl))

abbrev held : Held
held = record { address = 100; name = bytes "127.0.0.1:8888#1"; io_loop = 5 }

remove_connection_lem_example :
    let r = remove_connection_in_loop {K = Watches} false held (listening, λ io_loop. idle) in
    Numbered r.0
    × (find_connection (bytes "127.0.0.1:8888#1") r.0.m_connections ≡ none)
    × ((other : Bytes)
        → other ≢ bytes "127.0.0.1:8888#1"
        → find_connection other r.0.m_connections ≡ find_connection other [])
    × ((r.1 5).m_pending_functors ≡ destroyed_functor 100 ∷ [])
    × (false ≡ false → (r.1 5).wakeup_readable ≡ true)
remove_connection_lem_example =
    remove_connection_lem false held listening (λ io_loop. idle) listening-Numbered

xorshift_word : (xorshift128plus (record { first = 1; second = 2 })).0 ≡ 8388645
unfolding xorshift128plus
xorshift_word = refl
