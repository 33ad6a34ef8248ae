-- ===== src/Lib.antt =====
-- A service registration center: a tree of nodes that clients read and change over TCP, and the
-- sessions of these clients, which UDP heartbeats keep alive.
--
-- The parts and their files:
-- - IndexedHeap.antt: the heap with an index by id that src/HeapTimer.cpp and
--   src/HeapHeartbeatCounter.cpp each contain. The two classes differ in the order of their nodes and
--   in what a method writes into a node, so that the heap is written once over an interface
--   (`HeapNode`). Index.antt, Order.antt, Up.antt, Down.antt and Edits.antt carry the proofs,
--   Methods.antt and Removal.antt state the methods against a dictionary, and Drain.antt is the loop of
--   both `tick` methods.
-- - HeapTimer.antt and HeapHeartbeatCounter.antt: the two classes. A reading of the clock is an
--   argument, and a loop that reads the clock in every round takes a function of the round. The clock
--   of the source is not steady: the readings are any numbers, also falling ones.
-- - HeartbeatCounter.antt: src/HeartbeatCounter.cpp, a timer and a count for each session. The timer's
--   callback counts a missed heartbeat and starts the timer again; the counter's callback, at the
--   limit, deletes the timer and tells the server.
-- - Bytes.antt, Messages.antt: strings as lists of bytes, and the messages of
--   src/proto/messages.proto. Protobuf is a parameter: for each message a `Codec` that reads back what
--   it wrote.
-- - DNode.antt and Services.antt: src/DNode.h and src/Services.cpp, the tree and its requests. A
--   `shared_ptr` is a subtree, a `weak_ptr` the address of a node. Services/Namespace.antt sees a tree
--   as a dictionary from paths to nodes; Services/PathSplit.antt is `splitPath`, and
--   Services/ReadBack.antt reads after a write.
-- - SessionManager.antt: src/Session.h and src/SessionManager.h.
-- - SrcServer.antt: src/SRCServer.cpp, which sends a message, a heartbeat or the death of a session to
--   the parts above. A state of the server is the states of the three parts, and a run is a sequence of
--   messages, heartbeats and rounds of the heartbeat thread.
-- - Buffer.antt: src/tcp/Buffer.h and Buffer.cpp, the bytes that a connection received or is to send;
--   Contents.antt and Writes.antt see it as a queue of bytes.
-- - EventLoopThreadPool.antt: src/tcp/EventLoopThreadPool.cpp, which shares connections out over loops.
-- - EventLoopThread.antt: src/tcp/EventLoopThread.cpp, the steps of `startLoop` and of the new thread on
--   the mutex, the condition variable and `m_loop`; Handshake.antt puts them together.
-- - Channel.antt, EpollPoller.antt: src/tcp/Channel.cpp, Poller.cpp and EpollPoller.cpp, a descriptor
--   with its events and the map of channels. The system's set of watches is an interface (`Epoll`) with
--   the documented laws of `epoll_ctl`. Registration.antt relates the index of a channel to both,
--   Polling.antt is `poll`.
-- - EventLoop.antt: src/tcp/EventLoop.cpp, and the operations of a channel that go through its loop
--   (Channels.antt). Pending.antt is `doPendingFunctors`; Wakeups.antt has the steps of the loop's thread
--   and of the others, where `queueInLoop` and `quit` of another thread are two steps each.
-- - TcpConnection.antt: src/tcp/TcpConnection.cpp, a connection in its loop; Handlers.antt has the
--   methods that call the callbacks of the user. Streams.antt, Outputs.antt, Drains.antt, Acts.antt and
--   Runs.antt follow the bytes from `send` to the system; Starting.antt, Closing.antt and Failures.antt
--   are its start, its end and failed writes; Soundness.antt is an event with any callbacks.
-- - Acceptor.antt, TcpServer.antt: src/tcp/Acceptor.cpp and src/tcp/TcpServer.cpp, the listening channel,
--   the map of connections (Names.antt, Connections.antt) and what they queue in the loops.
-- - Uuid4.antt: src/uuid4.cpp, the text from which the id of a session is hashed.
-- - ClientCli.antt: client/client_cli.cpp, the command line on top of the client library; Words.antt reads
--   words from a line, Commands.antt has the lines of commands.
-- - Console.antt: `test` of src/main.cpp, the same command line on the registry itself.
-- - SrcClient.antt: client/src_client.cpp, the client library, against an exchange of bytes with the
--   server; Calls.antt, Reads.antt and Joining.antt put the client and the server together.
-- - Tests.antt: the theorems at concrete inputs.
--
-- A call ends in an `Outcome`: a value, a fault (an index past the end, or a call of an empty
-- function), or a model out of fuel. The loops of the heap run on fuel: the index plus one for
-- `shift_up`, the size plus one for `shift_down` and for the loops of `tick`, and the length of the
-- path for `splitPath`. Each theorem that says that a call returns shows that this is enough.
--
-- A `size_t`, a count and a point in time are natural numbers without a bound; the two `int32` fields
-- of a response wrap. A timeout is not negative. To count the ids of connections past the largest `int`
-- is a fault.
--
-- The digits of an id of a connection run on fuel, one more than the id. The size of a message is
-- compared with the range of `size_t` where the code subtracts. The loop of an `EventLoop` runs on the
-- list of the polls that return. What a `write` or `readv` returns is an argument, and a `LOG_FATAL`,
-- which ends the process, is a fault.
--
-- Not modelled: logging, the configuration, the sockets and the threads, which are calls of the system
-- or glue; the second command line of client/client_cli.cpp, which is compiled out. A request of the
-- client meets the server as the bytes of one read; the pieces into which a connection may cut it are
-- not modelled. Each method of the registry and of the session table holds its mutex throughout and is
-- one step. The heartbeat counter has no mutex: its calls are steps that do not overlap. The order of an
-- `unordered_map` is not specified; the model puts a new entry first.
pub mod Prelude
pub mod IndexedHeap
pub mod HeapTimer
pub mod HeapHeartbeatCounter
pub mod Bytes
pub mod Messages
pub mod DNode
pub mod Services
pub mod HeartbeatCounter
pub mod SessionManager
pub mod SrcServer
pub mod Buffer
pub mod Channel
pub mod EpollPoller
pub mod EventLoop
pub mod TcpConnection
pub mod Acceptor
pub mod EventLoopThread
pub mod EventLoopThreadPool
pub mod Uuid4
pub mod TcpServer
pub mod SrcClient
pub mod ClientCli
pub mod Console
mod Tests
