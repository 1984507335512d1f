-- ===== src/Lib.antt =====
-- cpp100net: a C++ library for message servers and clients over TCP (HelloSocket/depends/include).
--
-- A connection (CellClient) owns a receive buffer and a send buffer (CellBuffer). A server thread
-- (CellServer) reads from the sockets of its connections, hands every whole message in a receive
-- buffer to the application (DoMsg, INetEvent), and writes the send buffers out. A message starts
-- with its own length and a command (MessageHeader.hpp); its fields are written and read through
-- byte streams (CellStream, CellMsgStream).
--
-- Which file models what (paths under HelloSocket/depends/include unless a path is given):
--   Common            lists over the native numbers, memory copies with their faults, byte order
--   Sockets           Cell.hpp: sockets and their constants; the answers of send and recv are arguments
--   Buffer            CellBuffer.hpp: an array with a fill mark. Buffer/Refine and Buffer/Transfer treat
--                     it as a bounded queue of bytes, Buffer/Frame is about the message in front,
--                     Buffer/Iocp is the half for completion ports
--   Stream            CellStream.hpp: read and write marks over an array
--   Message           MessageHeader.hpp: the commands and the bytes of the structs
--   MsgStream         CellMsgStream.hpp: the streams of one message, composed and read back
--   Client            CellClient.hpp: a connection
--   Dispatch          DoMsg of CellServer.hpp for one client, DoMsg and RecvData of EasyTcpClient.hpp
--   Server            CellServer.hpp: the step of OnRun that takes new connections over (Server/Join),
--                     CheckTime (Server/Heart), RecvData and DoMsg
--   SelectServer      CellSelectServer.hpp, without _WIN32: ReadData and WriteData; DoNetEvent and the round
--                     of CellServer::OnRun (SelectServer/Event), the sets handed to select
--                     (SelectServer/Sets, SelectServer/Cached), and the set kept from round to round
--                     (SelectServer/Keys, SelectServer/Steps, SelectServer/Rounds)
--   Epoll             CellEpoll.hpp: the epoll object, and what is relied on of the system (Epoll/Table)
--   EpollServer       CellEpollServer.hpp: serving the clients that epoll names; DoNetEvent and the round of
--                     OnRun (EpollServer/Round), the loop over the events (EpollServer/Alone,
--                     EpollServer/Fates, EpollServer/Loop), and the table of the epoll object
--                     (EpollServer/Asked, EpollServer/Watch)
--   Iocp              CellIOCP.hpp: the completion port
--   IocpServer        CellIOCPServer.hpp: posting operations and taking the completed ones; DoNetEvent,
--                     CheckTime and the round of OnRun (IocpServer/Round, IocpServer/Heart), and one connection with its
--                     pending operations (IocpServer/Link, IocpServer/Order, IocpServer/Posts,
--                     IocpServer/Transfers)
--   TcpServer         EasyTcpServer.hpp: accepting connections, their distribution over the CellServers
--                     (TcpServer/Balance), and the counters over any order of events (TcpServer/Reach); the
--                     listening socket (TcpServer/Listen), and OnRun of EasySelectServer.hpp
--                     (TcpServer/AcceptLoop, TcpServer/Accepts) of EasyEpollServer.hpp
--                     (TcpServer/EpollLoop) and of EasyIOCPServer.hpp (TcpServer/IocpLoop)
--   MemoryAlloc       MemoryMgr.hpp: one pool of memory blocks, its set-up (MemoryAlloc/Init), its free list
--                     (MemoryAlloc/Free), and any order of calls (MemoryAlloc/Use, MemoryAlloc/Handed)
--   ObjectPool        HelloSocket/EasyTcpServer/CellObjectPool.hpp: a pool of objects, by the pool of memory
--                     blocks (ObjectPool/Simulates, ObjectPool/Live)
--   MemoryMgr         MemoryMgr.hpp: the table that chooses a pool by the size of a request
--                     (MemoryMgr/Sizes), and references to blocks (MemoryMgr/Refs)
--   Semaphore         CellSemaphore.hpp
--   Thread            CellThread.hpp: the steps of a thread (Thread/Life), its end (Thread/Close, Thread/End)
--                     and Exit during Close (Thread/Deadlock)
--   TaskServer        CellTask.hpp: the queue of tasks, and the order in which they are run
--   Config            CellConfig.hpp: the settings from the command line
--   TcpClient         EasyTcpClient.hpp: a client with one connection; OnRun of EasySelectClient.hpp
--                     (TcpClient/Rounds), EasyEpollClient.hpp (TcpClient/EpollClient) and
--                     EasyIOCPClient.hpp (TcpClient/IocpClient)
--   Native            HelloSocket/CppNet100/main.cpp: the functions exported to C#, over null or valid
--                     handles (Native/Streams for the two streams, Native/Send for a message sent)
--   MyServer          HelloSocket/EasyTcpServer/server.cpp: the handler of the demonstration server; the
--                     logout, which is echoed (MyServer/Echo, MyServer/Reply)
--   MyClient          HelloSocket/EasyTcpClient/client.cpp: the demonstration client, which waits for
--                     answers (MyClient/Pace), and the rounds of its thread
--   FdSet             CellFDSet.hpp: a set of descriptors as bits (FdSet/Bits)
--   Log               CellLog.hpp: the log and the turns of its thread, without the destructor, whose
--                     message comes after its thread has ended (Log/Turns)
--
-- Conventions. An array is the list of its bytes and a pointer into it an offset; `copy_in` and
-- `copy_out` are memcpy, and an access outside an array is `none`. memcpy between overlapping ranges,
-- which CellBuffer::pop and write2socket make, is taken to move the bytes as memmove does. A fresh
-- array holds any bytes, which are an argument. Signed sums of sizes are unbounded, since their
-- overflow is undefined in C++; the conversion of a size_t to int in CellStream is written out. A fill
-- mark below zero, which CellBuffer::pop would leave if more bytes were removed than are waiting, is
-- `none`. The length in front of a message is its size modulo 2^16. Numbers in messages are little-endian bit patterns, floats included.
-- The application's handler is an argument of the message loop; so are the answers of the operating
-- system. Loops run on fuel: for the message loop one round more than there are messages is enough.
--
-- Not modelled, since they only call the operating system or exercise the library: the
-- start-up of the sockets, socket options, the main functions of the demonstrations, and the older
-- single-file copies under HelloSocket/EasyTcpServer and HelloSocket/HelloMemory.
pub mod Buffer
pub mod Client
pub mod Common
pub mod Config
pub mod Dispatch
pub mod Epoll
pub mod EpollServer
pub mod FdSet
pub mod Iocp
pub mod IocpServer
pub mod Log
pub mod MemoryAlloc
pub mod MemoryMgr
pub mod Message
pub mod MsgStream
pub mod MyClient
pub mod MyServer
pub mod Native
pub mod ObjectPool
pub mod SelectServer
pub mod Semaphore
pub mod Server
pub mod Sockets
pub mod Stream
pub mod TaskServer
pub mod TcpClient
pub mod TcpServer
pub mod Thread
