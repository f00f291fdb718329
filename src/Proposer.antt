-- ===== src/Proposer.antt =====
-- core/proposer.h and core/proposer.cpp: the role that proposes values.
pub mod State
pub mod Propose
pub mod Respond
pub mod Route
pub mod Create
pub mod Ids
