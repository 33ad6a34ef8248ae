-- ===== src/TcpServer/Connections.antt =====
-- The map of connections of src/tcp/TcpServer.cpp, and what its changes queue in the loops.
use dwt_src.Prelude.{
  ℕ, ◌+◌, ◌<◌, ltb, ok, ◌⊎◌, Returns-bind, ◌≡◌, ◌≢◌, refl, sym, ap, ◌∙◌, Bool, true, false, not,
  ◌||◌, inl, inr, Bool-cases, Option-cases, none, some, [], ◌∷◌, ◌++◌, arith, ◌==◌, length,
  get_elem?-get_or, Returns, returns,
}
use dwt_src.Bytes.{Bytes, bytes_eq, bytes_eq_iff}
use dwt_src.EventLoop.{queue_in_loop, push_functor, wakeup}
use dwt_src.EventLoopThreadPool.{EventLoopThreadPool, get_next_loop}
use dwt_src.TcpConnection.{
  TcpConnection, Loop, Functor, established_functor, destroyed_functor, is_connected,
}
use dwt_src.EpollPoller.{Epoll}
use dwt_src.TcpConnection.Closing.{noting}
use dwt_src.TcpConnection.Starting.{IsEstablished, fresh-IsEstablished}
use dwt_src.TcpServer.{
  TcpServer, Held, ConnectionMap, find_connection, erase_connection, put_connection, conn_name,
  Loops, at_loop, max_conn_id, new_connection, remove_connection_in_loop,
}
use dwt_src.TcpServer.Names.{name_of, name_of-injective}

false_differs : false ≢ true
false_differs = λ e. cc

none_differs : (held : Held) → none ≢ some held
none_differs held = λ e. cc

bytes_eq_refl : (s : Bytes) → bytes_eq s s ≡ true
bytes_eq_refl s = (bytes_eq_iff s s).1 refl

bytes_eq_differs : (s t : Bytes) → s ≢ t → bytes_eq s t ≡ false
bytes_eq_differs s t differs = elim (Bool-cases (bytes_eq s t)) [
  | inl e ↦ absurd (differs ((bytes_eq_iff s t).0 e))
  | inr e ↦ e
]

find-erase :
    (name : Bytes) (m : ConnectionMap) → find_connection name (erase_connection name m) ≡ none
unfolding find_connection erase_connection
find-erase name [] = refl
find-erase name ((key, held) ∷ rest) = elim (Bool-cases (bytes_eq key name)) [
  | inl e ↦ rw e (find-erase name rest)
  | inr e ↦ rw (e, e) (find-erase name rest)
]

find-erase_other :
    (name other : Bytes) (m : ConnectionMap)
    → other ≢ name
    → find_connection other (erase_connection name m) ≡ find_connection other m
unfolding find_connection erase_connection
find-erase_other name other [] differs = refl
find-erase_other name other ((key, held) ∷ rest) differs = elim (Bool-cases (bytes_eq key name)) [
  | inl e ↦
      let misses : bytes_eq key other ≡ false =
        bytes_eq_differs key other (λ same. differs (sym same ∙ (bytes_eq_iff key name).0 e)) in
      rw (e, misses) (find-erase_other name other rest differs)
  | inr e ↦ rw (e, find-erase_other name other rest differs) refl
]

find-put :
    (name : Bytes) (held : Held) (m : ConnectionMap)
    → find_connection name (put_connection name held m) ≡ some held
unfolding find_connection put_connection
find-put name held m = rw (bytes_eq_refl name) refl

find-put_other :
    (name other : Bytes) (held : Held) (m : ConnectionMap)
    → other ≢ name
    → find_connection other (put_connection name held m) ≡ find_connection other m
unfolding find_connection put_connection
find-put_other name other held m differs =
    rw (bytes_eq_differs name other (λ same. differs (sym same)))
      (find-erase_other name other m differs)

-- Every connection in the map has the name of an id that was given out.
pub record Numbered (t : TcpServer) : Type 0 where
  pub given :
      (name : Bytes) (held : Held)
      → find_connection name t.m_connections ≡ some held
      → (id : ℕ) × (id < t.m_next_conn_id) × (name ≡ name_of t.m_ip_port id)

conn_name_lem : (t : TcpServer) → conn_name t ≡ name_of t.m_ip_port t.m_next_conn_id
unfolding conn_name
conn_name_lem t = refl

fresh_name : (t : TcpServer) → Numbered t → find_connection (conn_name t) t.m_connections ≡ none
fresh_name t n = elim (Option-cases (find_connection (conn_name t) t.m_connections)) [
  | inl e ↦ e
  | inr (held, e) ↦
      let (id, below, same) = n.given (conn_name t) held e in
      let equal : t.m_next_conn_id ≡ id =
        name_of-injective t.m_ip_port t.m_next_conn_id id (sym (conn_name_lem t) ∙ same) in
      absurd (omega (arith, below, equal))
]

at_loop-same :
    {K : Type 0} (io_loop : ℕ) (change : Loop K → Loop K) (loops : Loops K)
    → at_loop io_loop change loops io_loop ≡ change (loops io_loop)
at_loop-same io_loop change loops =
    let same : (io_loop == io_loop) ≡ true = ground arith in rw same refl

at_loop-other :
    {K : Type 0} (io_loop other : ℕ) (change : Loop K → Loop K) (loops : Loops K)
    → other ≢ io_loop
    → at_loop io_loop change loops other ≡ loops other
at_loop-other io_loop other change loops differs =
    let misses : (other == io_loop) ≡ false = ground arith in rw misses refl

put_Numbered :
    (t : TcpServer) (pool : EventLoopThreadPool) (held : Held)
    → Numbered t
    → Numbered (record t {
      m_thread_pool = pool;
      m_connections = put_connection (conn_name t) held t.m_connections;
      m_next_conn_id = t.m_next_conn_id + 1;
    })
put_Numbered t pool held n = record {
  given = λ name found e. elim (Bool-cases (bytes_eq name (conn_name t))) [
    | inl same ↦
        (t.m_next_conn_id, omega arith, (bytes_eq_iff name (conn_name t)).0 same ∙ conn_name_lem t)
    | inr differs ↦
        let (id, below, is_name) = n.given name found (
          sym (
            find-put_other (conn_name t) name held t.m_connections
              (λ same. false_differs (sym differs ∙ (bytes_eq_iff name (conn_name t)).1 same)))
          ∙ e) in
        (id, omega (arith, below), is_name)
  ];
}

erase_Numbered :
    (t : TcpServer) (name : Bytes)
    → Numbered t
    → Numbered (record t { m_connections = erase_connection name t.m_connections })
erase_Numbered t name n = record {
  given = λ other found e. elim (Bool-cases (bytes_eq other name)) [
    | inl same ↦
        let gone : none ≡ some found =
          sym (find-erase name t.m_connections)
          ∙ ap (λ key. find_connection key (erase_connection name t.m_connections))
              (sym ((bytes_eq_iff other name).0 same))
          ∙ e in
        absurd (none_differs found gone)
    | inr differs ↦ n.given other found (
        sym (
          find-erase_other name other t.m_connections
            (λ same. false_differs (sym differs ∙ (bytes_eq_iff other name).1 same)))
        ∙ e)
  ];
}

module _ {K : Type 0} where
  queue-pending :
      (here : Bool) (f : Functor) (l : Loop K)
      → (queue_in_loop here f l).m_pending_functors ≡ l.m_pending_functors ++ (f ∷ [])
  unfolding queue_in_loop push_functor wakeup
  queue-pending here f l = elim (Bool-cases (not here || l.m_calling_pending_functors)) [
    | inl e ↦ rw e refl
    | inr e ↦ rw e refl
  ]

-- The next position is one of a loop, or there is no loop but the base loop.
abbrev pub HasLoop : EventLoopThreadPool → Type 0
HasLoop pool = (pool.m_next < length pool.m_loops) ⊎ (length pool.m_loops ≡ 0)

get_next_loop-Returns :
    (pool : EventLoopThreadPool)
    → HasLoop pool
    → Returns (λ (pool', io_loop). get_next_loop pool ≡ ok (pool', io_loop)) (get_next_loop pool)
unfolding get_next_loop
get_next_loop-Returns pool (inl inside) =
    let some_loops : (length pool.m_loops == 0) ≡ false = ground arith in
    rw (some_loops, get_elem?-get_or pool.m_loops pool.m_next 0 inside) (returns refl)
get_next_loop-Returns pool (inr empty) =
    let no_loops : (length pool.m_loops == 0) ≡ true = ground arith in rw no_loops (returns refl)

module _ {K W : Type 0} (system : Epoll K) (connection close : TcpConnection → W → W) where
  -- After `newConnection`: the pool handed out the loop; the connection is in the map under a name
  -- that was free, and no other entry changed. In the loop's own thread the connection was
  -- established; from another one, that is queued in the loop, which is woken. No other loop changed.
  pub record Accepted (t : TcpServer) (loops : Loops K) (w : W) (address : ℕ)
      (is_in_loop_thread : Bool) (t' : TcpServer) (loops' : Loops K) (w' : W) (conn : TcpConnection)
      (io_loop : ℕ) : Type 0 where
    pub handed : get_next_loop t.m_thread_pool ≡ ok (t'.m_thread_pool, io_loop)
    pub numbered : Numbered t'
    pub was_free : find_connection conn.m_name t.m_connections ≡ none
    pub held :
        find_connection conn.m_name t'.m_connections
        ≡ some (record { address = address; name = conn.m_name; io_loop = io_loop })
    pub others :
        (other : Bytes)
        → other ≢ conn.m_name
        → find_connection other t'.m_connections ≡ find_connection other t.m_connections
    pub other_loops : (other : ℕ) → other ≢ io_loop → loops' other ≡ loops other
    pub established :
        is_in_loop_thread ≡ true → IsEstablished system connection close w conn (loops' io_loop) w'
    pub queued :
        is_in_loop_thread ≡ false
        → ((loops' io_loop).m_pending_functors
            ≡ (loops io_loop).m_pending_functors ++ (established_functor address ∷ []))
          × ((loops' io_loop).wakeup_readable ≡ true)
          × (is_connected conn.m_state ≡ false)
          × (w' ≡ w)

  -- When every name in the map was given out, the next id is below the largest `int`, the pool has a
  -- loop at its next position or no loop but the base loop, the callbacks leave the connection and
  -- the loop alone, and the descriptor is not known in any loop: `newConnection` returns, with the
  -- connection in the map under a name that was free, every other entry and every other loop as
  -- before, and every name in the map given out. In the thread of the loop that the pool hands out
  -- the connection is established, and its callback was called once; from another thread the call of
  -- `connectEstablished` is at the end of the loop's queue, and the loop is woken.
  pub new_connection_lem :
      (address channel_address sockfd : ℕ) (is_in_loop_thread : Bool) (t : TcpServer)
      (loops : Loops K) (w : W)
      → Numbered t
      → t.m_next_conn_id < max_conn_id
      → HasLoop t.m_thread_pool
      → ((io_loop : ℕ)
          → ((loops io_loop).m_poller.m_channels sockfd ≡ none)
            × (system.watched (loops io_loop).m_poller.kernel sockfd ≡ none))
      → Returns
          (λ (t', loops', w', conn, io_loop).
            Accepted t loops w address is_in_loop_thread t' loops' w' conn io_loop)
          (new_connection system
            (noting connection close)
            address
            channel_address
            sockfd
            is_in_loop_thread
            (t, loops, w))
  unfolding new_connection queue_in_loop push_functor wakeup dwt_src.TcpConnection.new_connection
  new_connection_lem address channel_address sockfd true t loops w n below pool unknown =
      let counts : ltb t.m_next_conn_id max_conn_id ≡ true = ground arith in
      Returns-bind (get_next_loop-Returns t.m_thread_pool pool) λ (pool', io_loop) handed.
        let held : Held = record { address = address; name = conn_name t; io_loop = io_loop } in
        rw counts (
          Returns-bind
            (fresh-IsEstablished system connection close address channel_address sockfd
              (conn_name t) t.has_write_complete_callback (loops io_loop) w (unknown io_loop).0
              (unknown io_loop).1)
            λ (conn, l, w') (established, name). returns (record {
              handed = handed;
              numbered = put_Numbered t pool' held n;
              was_free = rw name (fresh_name t n);
              held = rw name (find-put (conn_name t) held t.m_connections);
              others = λ other differs.
                  find-put_other (conn_name t) other held t.m_connections
                    (λ same. differs (same ∙ sym name));
              other_loops = λ other differs. at_loop-other io_loop other (λ _. l) loops differs;
              established = λ here. rw (at_loop-same io_loop (λ _. l) loops) established;
              queued = λ elsewhere. absurd (cc);
            }))
  new_connection_lem address channel_address sockfd false t loops w n below pool unknown =
      let counts : ltb t.m_next_conn_id max_conn_id ≡ true = ground arith in
      Returns-bind (get_next_loop-Returns t.m_thread_pool pool) λ (pool', io_loop) handed.
        let held : Held = record { address = address; name = conn_name t; io_loop = io_loop } in
        let queues = queue_in_loop false (established_functor address) in
        rw counts (
          returns (record {
            handed = handed;
            numbered = put_Numbered t pool' held n;
            was_free = fresh_name t n;
            held = find-put (conn_name t) held t.m_connections;
            others =
                λ other differs. find-put_other (conn_name t) other held t.m_connections differs;
            other_loops = λ other differs. at_loop-other io_loop other queues loops differs;
            established = λ here. absurd (cc);
            queued = λ elsewhere. (
              ap (λ (l : Loop K). l.m_pending_functors) (at_loop-same io_loop queues loops),
              ap (λ (l : Loop K). l.wakeup_readable) (at_loop-same io_loop queues loops),
              refl,
              refl,
            );
          }))

module _ {K : Type 0} where
  -- After `removeConnectionInLoop` the name is not in the map, every other entry is as before, every
  -- name in the map was given out when it was so before, and the call of `connectDestoryed` is at the
  -- end of the queue of the connection's loop, which is woken when it has another thread.
  pub remove_connection_lem :
      (is_in_io_thread : Bool) (held : Held) (t : TcpServer) (loops : Loops K)
      → Numbered t
      → let r = remove_connection_in_loop is_in_io_thread held (t, loops) in
        Numbered r.0
        × (find_connection held.name r.0.m_connections ≡ none)
        × ((other : Bytes)
            → other ≢ held.name
            → find_connection other r.0.m_connections ≡ find_connection other t.m_connections)
        × ((r.1 held.io_loop).m_pending_functors
            ≡ (loops held.io_loop).m_pending_functors ++ (destroyed_functor held.address ∷ []))
        × (is_in_io_thread ≡ false → (r.1 held.io_loop).wakeup_readable ≡ true)
  unfolding remove_connection_in_loop queue_in_loop push_functor wakeup
  remove_connection_lem is_in_io_thread held t loops n = (
    erase_Numbered t held.name n,
    find-erase held.name t.m_connections,
    λ other differs. find-erase_other held.name other t.m_connections differs,
    ap (λ (l : Loop K). l.m_pending_functors)
          (at_loop-same held.io_loop
            (queue_in_loop is_in_io_thread (destroyed_functor held.address)) loops)
        ∙ queue-pending is_in_io_thread (destroyed_functor held.address) (loops held.io_loop),
    λ elsewhere.
        rw
          (
            elsewhere,
            at_loop-same held.io_loop (queue_in_loop false (destroyed_functor held.address)) loops,
          )
          refl,
  )
