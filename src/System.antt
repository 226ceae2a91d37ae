-- ===== src/System.antt =====
-- The operating system as src/net/Socket.cpp, EpollMgr.cpp and NetWorkMgr.cpp call it: what each call
-- returns is a parameter, and the calls are recorded.
pub mod Calls
pub mod Socket
pub mod Poll
pub mod NetWorks
pub mod Proc
pub mod Leaks
pub mod Events
