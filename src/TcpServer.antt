-- ===== src/TcpServer.antt =====
-- src/tcp/TcpServer.h and src/tcp/TcpServer.cpp: the connections of a server and the loops that they
-- run in. The base loop accepts; a connection belongs to the loop that the pool hands out. The map
-- of connections keeps for each name the address of the connection and its loop.
pub mod Names
pub mod Connections
use dwt_src.Prelude.{
  ℕ, zero, suc, ◌+◌, ◌/◌, ◌%◌, Bool, true, false, Option, none, some, List, [], ◌∷◌, ◌++◌, ltb,
  ◌==◌, if◌then◌else◌, Outcome, ok, fault, ◌>>=◌,
}
use dwt_src.Bytes.{Bytes, bytes_eq}
use dwt_src.EpollPoller.{Epoll}
use dwt_src.EventLoop.{queue_in_loop}
use dwt_src.EventLoopThreadPool.{EventLoopThreadPool, start, get_next_loop}
use dwt_src.TcpConnection.{
  TcpConnection, Loop, Functor, other_functor, established_functor, destroyed_functor,
}
use dwt_src.TcpConnection.Handlers.{Callbacks, connect_established}

-- The decimal digits of a number, on fuel: one more than the number is enough.
unfoldable pub decimal_digits : ℕ → ℕ → Bytes
decimal_digits zero n = []
decimal_digits (suc fuel) n =
    let front = decimal_digits fuel (n / 10) in
    if ltb n 10 then (48 + n) ∷ [] else front ++ ((48 + n % 10) ∷ [])

-- `std::to_string`
unfoldable pub to_string : ℕ → Bytes
unfolding decimal_digits
to_string n = decimal_digits (suc n) n

-- A connection that the map holds: its address, its name and its loop.
pub record Held : Type 0 where
  pub address : ℕ
  pub name : Bytes
  pub io_loop : ℕ

abbrev pub ConnectionMap : Type 0
ConnectionMap = List (Bytes × Held)

unfoldable pub find_connection : Bytes → ConnectionMap → Option Held
find_connection name [] = none
find_connection name ((key, held) ∷ rest) =
    let more = find_connection name rest in if bytes_eq key name then some held else more

unfoldable pub erase_connection : Bytes → ConnectionMap → ConnectionMap
erase_connection name [] = []
erase_connection name ((key, held) ∷ rest) =
    let more = erase_connection name rest in if bytes_eq key name then more else (key, held) ∷ more

-- `m_connections[name] = conn`
unfoldable pub put_connection : Bytes → Held → ConnectionMap → ConnectionMap
unfolding erase_connection
put_connection name held connections = (name, held) ∷ erase_connection name connections

pub record TcpServer : Type 0 where
  pub m_ip_port : Bytes
  pub m_thread_pool : EventLoopThreadPool
  pub has_write_complete_callback : Bool
  pub m_started : ℕ
  pub m_connections : ConnectionMap
  pub m_next_conn_id : ℕ

-- The constructor, for an address `ip_port` and a pool without threads on the base loop.
unfoldable pub new_server : Bytes → ℕ → TcpServer
new_server ip_port base_loop = record {
  m_ip_port = ip_port;
  m_thread_pool = record {
    m_base_loop = base_loop;
    m_started = false;
    m_num_threads = 0;
    m_next = 0;
    m_loops = [];
  };
  has_write_complete_callback = false;
  m_started = 0;
  m_connections = [];
  m_next_conn_id = 1;
}

unfoldable pub set_thread_num : ℕ → TcpServer → TcpServer
set_thread_num num_threads t = record t {
  m_thread_pool = record t.m_thread_pool { m_num_threads = num_threads };
}

-- The loops by number.
abbrev pub Loops : Type 0 → Type 0
Loops K = ℕ → Loop K

abbrev pub at_loop : {K : Type 0} → ℕ → (Loop K → Loop K) → Loops K → Loops K
at_loop io_loop change loops other = if other == io_loop then change (loops other) else loops other

-- `connName`
unfoldable pub conn_name : TcpServer → Bytes
unfolding to_string
conn_name t = t.m_ip_port ++ (35 ∷ to_string t.m_next_conn_id)

-- `start`, and whether the base loop is to run `Acceptor::listen`.
unfoldable pub start_server : (ℕ → ℕ) → TcpServer → TcpServer × Bool
start_server start_loop t =
    if t.m_started == 0
    then (record t { m_started = 1; m_thread_pool = start t.m_thread_pool start_loop }, true)
    else (record t { m_started = t.m_started + 1 }, false)

-- The largest `int`, of which the next id is one.
abbrev pub max_conn_id : ℕ
max_conn_id = 2147483647

-- `newConnection`: the server with the connection in its map, the loops, the connection and its loop.
-- When that loop runs in this thread, `connectEstablished` is called at once; otherwise the call is
-- queued in the loop. The next id is an `int`: to count past the largest one is undefined.
unfoldable pub new_connection :
    {K W : Type 0}
    → Epoll K
    → Callbacks (TcpConnection × Loop K × W)
    → ℕ
    → ℕ
    → ℕ
    → Bool
    → TcpServer × Loops K × W
    → Outcome (TcpServer × Loops K × W × TcpConnection × ℕ)
unfolding conn_name put_connection
new_connection {K = K} {W = W} system callbacks address channel_address sockfd is_in_loop_thread
      (t, loops, w) =
    do
      (pool, io_loop) ← get_next_loop t.m_thread_pool
      let name = conn_name t
      let conn : TcpConnection =
          record (dwt_src.TcpConnection.new_connection address name channel_address sockfd) {
            has_write_complete_callback = t.has_write_complete_callback;
          }
      let held : Held = record { address = address; name = name; io_loop = io_loop }
      let t' : TcpServer = record t {
        m_thread_pool = pool;
        m_connections = put_connection name held t.m_connections;
        m_next_conn_id = t.m_next_conn_id + 1;
      }
      let called : Outcome (TcpServer × Loops K × W × TcpConnection × ℕ) = do
        (conn', l, w') ← connect_established system callbacks (conn, loops io_loop, w)
        ok (t', at_loop io_loop (λ _. l) loops, w', conn', io_loop)
      let queued = at_loop io_loop (queue_in_loop false (established_functor address)) loops
      let established = if is_in_loop_thread then called else ok (t', queued, w, conn, io_loop)
      (if ltb t.m_next_conn_id max_conn_id then established else fault)

module _ {K : Type 0} where
  -- `removeConnectionInLoop`, in the thread of the base loop; `is_in_io_thread` tells whether the
  -- connection's loop runs there, too.
  unfoldable pub remove_connection_in_loop : Bool → Held → TcpServer × Loops K → TcpServer × Loops K
  unfolding erase_connection
  remove_connection_in_loop is_in_io_thread held (t, loops) = (
    record t { m_connections = erase_connection held.name t.m_connections },
    at_loop held.io_loop (queue_in_loop is_in_io_thread (destroyed_functor held.address)) loops,
  )

  -- The close callback of a connection; from another thread than the base loop's, the rest is queued
  -- there, as the functor `removal`.
  unfoldable pub remove_connection :
      Bool → Bool → ℕ → Held → TcpServer × Loops K → TcpServer × Loops K
  unfolding remove_connection_in_loop
  remove_connection is_in_base_thread is_in_io_thread removal held (t, loops) =
      if is_in_base_thread then remove_connection_in_loop is_in_io_thread held (t, loops) else (
        t,
        at_loop t.m_thread_pool.m_base_loop (queue_in_loop false (other_functor removal)) loops,
      )

  -- The loop of the destructor; `is_in_loop_thread` tells whether it runs in the thread of a loop.
  unfoldable pub destroy_connections : (ℕ → Bool) → ConnectionMap → Loops K → Loops K
  destroy_connections is_in_loop_thread [] loops = loops
  destroy_connections is_in_loop_thread ((name, held) ∷ rest) loops =
      destroy_connections is_in_loop_thread rest (
        at_loop held.io_loop
          (queue_in_loop (is_in_loop_thread held.io_loop) (destroyed_functor held.address)) loops)
