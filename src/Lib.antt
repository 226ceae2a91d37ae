-- ===== src/Lib.antt =====
-- TTServer: a game server's network layer over UDP, in which KCP gives reliability.
--
-- One network thread reads datagrams, finds the connection of the sender's address, and lets it handle
-- the packet; timers tick the connections; what they send stands on a send queue until the socket
-- takes it. The main thread is at the other end of two rings: messages and events go up to it, its
-- messages come down.
--
-- The files and the code that they model:
--   Bytes, Msg        src/net/NetMsg.cpp, src/net/NetMsg.h and the packets of src/net/NetCommDef.h:
--                     the integer codecs, `NetReader`, `NetWriter`, `NetMsg::DecodeMsg`
--   Ring              src/base/RingQueue.h, src/base/RingQueue.cpp: the ring of messages
--   Config            the constants of src/net/NetCommDef.h
--   Library           the calls of KCP and OpenSSL, as a record of functions
--   Kcp               src/net/KcpWrapper.h, src/net/KcpWrappar.cpp
--   Host              what a connection finds around it: the send queue and the `Send...` functions of
--                     src/net/NetWork.cpp, the ring to the main thread of src/net/NetMgr.cpp, the maps
--                     of src/net/NetConnectMgr.cpp
--   Security          src/net/NetSecurityMgr.cpp: `SetEncKey`, `EncryptData`, `DecryptData`, and in
--                     Security/Dh the exchange of keys
--   Cookie            src/net/CookieMgr.h, src/net/CookieMgr.cpp: the number of the key, `CreateCookie`
--   Net               the network thread: src/net/NetWork.cpp (Handshake and Serve for the server, Client
--                     for the client, Io for the socket) and src/net/NetConnectMgr.cpp (Manager)
--   Conn              src/net/NetConnect.h, src/net/NetConnect.cpp: one connection
--   Mgr               src/net/NetMgr.cpp: the calls of the main thread, and in Mgr/Work what the network
--                     thread does with the messages that come down
--   SendQueue         src/net/SendQueue.h, src/net/SendQueue.cpp: the linked queue of nodes
--   System            what src/net/Socket.cpp, src/net/EpollMgr.cpp (Poll) and src/net/NetWorkMgr.cpp
--                     (NetWorks and Proc) do with the calls of the operating system
--   Thread            src/time/Now.cpp, src/base/BaseThread.cpp; in Thread/Net src/net/NetThread.cpp with
--                     `NetMgr::Proc`, in Thread/Client the loops of src/net/BaseClien.cpp
--   Logger            src/logger: Format is Formatter.cpp, Rotate is Appender/RotateAppender.cpp, Record is
--                     Logger.cpp with the other appenders
--   TimeWheel         src/time/TimeWheel.h, src/time/TimeWheel.cpp
--   Ids               `AllocID` and the set of used ids of src/net/NetConnectMgr.cpp
--   Base, Tests       shared helpers; the theorems at concrete inputs
--
-- A class is a record of its fields and a method a function that takes the record, and for a
-- connection its `Host`, and gives both back with the result; a name of the code is spelled with
-- underscores (`CloseConnect` is `close_connect`, `Tick1S` is `tick1s`). A pointer is a number. The
-- result 0 or -1 is `succ` or `fail`, or an `Option` where the code leaves nothing behind on failure.
-- `World` is what the network thread has: its host, the connection objects by their addresses in memory,
-- the ids, the cookie keys. A deleted object is in the memory no more, and a function that would read it
-- gives `none`; the arguments of log calls are not read. An unordered map is a list, and a loop over it
-- takes the list's order. What waits in the socket, and what the socket answers, are lists.
--
-- A field of bytes takes the bytes that fit. Where a copy into `m_szMsgBuffer`, into the buffer for
-- decrypted data, or between the fields of 16 bytes of a handshake goes on behind its end, the host's
-- `overrun` is up from there on, and the code is not defined; what the main thread copies gives `none`
-- then.
--
-- The operating system is a parameter: what a call returns after the calls before it. `Thread.Net` puts
-- the parts together: a round of the network thread handles the events of the sockets, then the messages
-- of the main thread, then the connections, and runs the ticks that are due. There the state is an
-- `Option`, and stays `none` once a call has read freed memory or has not returned. The log calls of
-- the network code are left out.
--
-- Machine words wrap by `% 2 ^ w`; the conversion of an `int` to `size_t` is `to_size`.
--
-- Fuel: `recv_loop` stands for `while (true)`, and `none` says that the fuel is used up. The loop of
-- `RecvUnreliable` has one round more than there are bytes, and a round that goes on takes two at least.
-- `proc_m2n_msg` takes a round for each message on the ring and one more. `excute_list` walks a list that
-- grows while it is walked; its fuel is a round for each timer and one more where none is repeated.
-- `bit_length` takes 32 rounds for a 32-bit word. The rounds of `search_id` are the code's own counter,
-- and so are the 1000 of `do_io_read`. `parse_loop` takes a character at least in each round, `proc_events` one
-- event. `digits` has 20 rounds, enough below 10 ^ 20. `Thread.run` and `heartbeat_loop` stand for endless
-- loops, for any number of rounds.
--
-- Not modelled: KCP itself (src/net/ikcp.c), OpenSSL and fmt, which are libraries; the start and the end
-- of threads, and the functions of src/net/Socket.cpp that print addresses or ask for the network cards;
-- reading the memory of a freed packet through a stale pointer; what the tasks of a timer do; the writes
-- of both threads to `m_szMsgBuffer`, which they share without a lock. The queue of packets is a list
-- in Host, whose links SendQueue models on their own.
pub mod Base
pub mod Bytes
pub mod Msg
pub mod Ring
pub mod Library
pub mod Config
pub mod Kcp
pub mod Host
pub mod Logger
pub mod Security
pub mod SendQueue
pub mod System
pub mod Cookie
pub mod Conn
pub mod Ids
pub mod Net
pub mod Mgr
pub mod TimeWheel
pub mod Thread
pub mod Tests
