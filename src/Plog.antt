-- ===== src/Plog.antt =====
-- core/plog.h and core/plog.cpp: the log of one paxos instance, and the logs of a server.
pub mod Entry
pub mod EntryMng
pub mod PlogMng
pub mod Cache
pub mod Codec
