-- ===== src/Lib.antt =====
-- EchoServer: a TCP and websocket server that answers heartbeat packets.
--
-- The program. libbase has memory pools, base64, calendar time and the system wrappers;
-- libsocket has the server socket (a main thread, and IO threads that own the connections) and
-- the client socket; include/protocol has the binary streams and the packet head; EchoServer is
-- the application, called back by the main thread of the server socket.
-- A connection (ServerIOSocket) reads bytes, takes websocket frames apart, cuts the bytes into
-- packets and pushes them on the queue of the main thread (ServerSocket). The main thread takes
-- packages off its queue, keeps the map of agents, calls the application (Server) and pushes
-- orders on the queues of the IO threads.
--
-- The files.
-- - Stream: include/protocol/Biosream.h. A stream is the bytes before and behind its position;
--   an operation returns the new stream or what it throws, with the stream as it is then. `host`
--   is the byte order of the machine, which is a parameter. Stream/Words has integers,
--   Stream/Text texts with a length field.
-- - Protocol: include/protocol/ProtocolBase.h and EchoServer/SomeDefine.h, the packet head, the
--   heartbeat and the macros READXY and GET_TEMPLATE_BUF.
-- - SocketBase: include/socket/SocketBase.h, sizes and states.
-- - Threads: libbase/Thread.cpp and begin of libsocket/ServerSocket.cpp and ClientSocket.cpp.
--   Threads/Starting is about the threads that are alive.
-- - FreeQueue: include/base/FreeQueue.h, Push and Pop as atomic steps on nodes at addresses.
--   FreeQueue/Chain is about linked nodes, FreeQueue/Steps and FreeQueue/Fifo about calls without
--   interruption, FreeQueue/Replay compares any such calls with a list, FreeQueue/Race is about
--   two threads that take turns.
-- - SystemMonitor: libbase/SystemMonitor.cpp on the bytes of the files of /proc.
--   SystemMonitor/Reading is about lines, SystemMonitor/Fields about the strings in a line,
--   SystemMonitor/Values about getMemory and initCpuInfo.
-- - Strings: the string helpers of libbase/Utils.cpp. Strings/Removal, Strings/Splitting and
--   Strings/Replacement compare them with plain list functions.
-- - Ini: include/tool/ParseIni.h. A file is the list of its lines. Ini/Lines is about one line,
--   Ini/Lookup about the maps, Ini/RoundTrip about a whole file.
-- - ServerConfig: EchoServer/ServerConfig.cpp, on top of Ini; ServerConfig/Loading is about
--   load.
-- - ClientIo: libsocket/ClientIOSocket.cpp, the receive loop. ClientIo/Framing says what a
--   packet is and treats one read, ClientIo/Segments any number of reads. ClientIo/Connection is
--   the rest of the class: toConnect, the callbacks and the send buffer.
--   ClientIo/Connection/Lifecycle has the steps of the socket with libevent as a relation, those
--   of the bufferevents that are no more those of the connection included,
--   ClientIo/Connection/Stale is about the receive buffer over a loss of the connection.
-- - ClientSocket: libsocket/ClientSocket.cpp and AgentServer.cpp, the main thread of the client.
--   ClientSocket/Agents is about its map of agents, ClientSocket/HeartBeat about tryHeartBeat.
-- - ServerIo: libsocket/ServerIOSocket.cpp. ServerIo/Ascii has strstr, ServerIo/Frame
--   removeWebSocketHead, ServerIo/Receive the handshake and recv, ServerIo/Packets what the loop
--   of recv cuts out, ServerIo/FrameLaws and ServerIo/FrameFaults what becomes of frames,
--   ServerIo/SendBuffer how small packets are joined.
-- - ServerSocket: libsocket/ServerSocket.cpp and AgentClient.cpp, the main thread as a step on a
--   state (Hub) over the state of the application. ServerSocket/Crash is about closeByLogic,
--   ServerSocket/Agents about the map of agents and the count of connections, ServerSocket/Queue about the package queue,
--   ServerSocket/Accept about the turn of the IO threads. ServerSocket/Lifecycle says which
--   packages fit a connection, and ServerSocket/Turns has the steps of the main thread and of
--   the IO threads that push on its queue as a relation.
-- - Wire: what the two kinds of IO threads have in common, a connection whose packets go into a
--   buffer that is sent when it is full and at the end of a call. It is an interface with laws,
--   which plain connections and websockets of the server (IoThread/Buffer, IoThread/Payload) and
--   sockets of the client (ClientThread/Buffer) fill. Wire/Live is about pointers to what is there.
-- - IoThread: libsocket/ServerSocketIOThread.cpp, the job queue of an IO thread, its connections
--   by address, and what it tells the main thread. IoThread/Open is about one job, IoThread/Order
--   about one call of pairCallback, IoThread/Progress and IoThread/Drain about calls until the
--   queue is empty, IoThread/Payload reads the data of a frame by RFC 6455, by its opcode and the
--   length that it announces, IoThread/Frames is about what a websocket sends, IoThread/Deleted about a
--   connection that is closed.
-- - ClientThread: libsocket/ClientSocketIOThread.cpp, the IO thread of the client.
--   ClientThread/Order is about one job and the loop, ClientThread/Drain about calls until the
--   queue is empty.
-- - Log: libbase/Log.cpp, the buffer of the log and the rounds of its thread. Log/Output is about
--   what is printed, Log/Rotation about the files.
-- - EchoServer: EchoServer/Server.cpp. EchoServer/Echo is about the answers, EchoServer/EndToEnd
--   about heartbeats that arrive on a connection, EchoServer/Answers about what goes out,
--   EchoServer/Conversation about the whole way from a client and back to it,
--   EchoServer/Websocket about the same in frames.
-- - Memory: libbase/MallocPool.cpp (Memory/Pool) and libbase/MallocManager.cpp (Memory/Manager).
--   Memory/Manager/Places counts where a block stands, Memory/Manager/Soundness and
--   Memory/Manager/Allocation are about free and malloc, Memory/Manager/Ownership about pointers.
-- - Base64: libbase/base64.cpp. Time: time_to_tm and tm_to_time of libbase/Utils.cpp.
-- - Prelude: numbers, lists, bytes, C strings, association lists and results that the others share.
-- - Tests: the theorems at concrete inputs.
--
-- Conventions. A byte is a number below 256, a C integer a number with its wrap-around written
-- out where the code can reach it. An access outside of a buffer is the result `fault`, a crash
-- of the main thread is `none`, and so is a use of a deleted object by an IO thread or a caller
-- of the queue without locks. The loops
-- of recv run on fuel: `none` (ClientIo) and `stuck` (ServerIo) mean that it ran out. One round
-- takes a packet, so that more fuel than packets is enough where packets have a nonzero length;
-- with a packet of length zero no fuel is enough. The loops of trimString and splitString have
-- as much fuel as the string is long, since every round takes a character or a separator;
-- replaceAllChar gets its fuel as an argument, and readFile as many
-- rounds as the file has bytes and one more. Machines are LP64, and a `char` is signed where
-- that matters.
--
-- Parameters. The bytes that bufferevent_read stores are an argument, as are the result of
-- bufferevent_write, what the system answers to an attempt to connect, to a socket that is to
-- listen and to a thread that is created, atoi, atol, the lines of the configuration file, the bytes
-- of the files of /proc, the digest function of sha1.cpp, the address that `new` returns, the time
-- and the byte order of the machine. What is sent is recorded in the state. What libevent reports of a
-- bufferevent that is not that of the open connection (Others) and what a failed pthread_create leaves
-- in the handle (Creation) are parameters too, with any value. Where a theorem on the client's
-- connection needs that those bufferevents are quiet, as libevent has disabled them once it has
-- reported an end, that is a hypothesis of it (AreQuiet); it does not hold after an error on writing,
-- which leaves reading enabled.
--
-- Not modelled: libevent under depend and sha1.cpp, which are copies of other projects; the event
-- loop and the locks (the steps of a thread are modelled, not the system's scheduling, but for
-- two callers of FreeQueue that take turns in every order); the Windows branches; the start of the
-- process and what is only printed; the division of memory sizes by floating-point numbers.
pub mod Prelude
pub mod Stream
pub mod Strings
pub mod SystemMonitor
pub mod FreeQueue
pub mod Ini
pub mod ServerConfig
pub mod Protocol
pub mod SocketBase
pub mod ClientIo
pub mod ClientSocket
pub mod ClientThread
pub mod ServerIo
pub mod Threads
pub mod Time
pub mod Wire
pub mod Memory
pub mod ServerSocket
pub mod IoThread
pub mod Log
pub mod EchoServer
pub mod Base64
pub mod Tests
