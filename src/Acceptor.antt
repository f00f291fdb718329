-- ===== src/Acceptor.antt =====
-- core/acceptor.h and core/acceptor.cpp: the role that promises, accepts and learns values.
pub mod Defs
pub mod Ballots
pub mod Check
pub mod Promise
pub mod Accept
pub mod Accepted
pub mod Choose
pub mod Stable
unfoldable pub use Defs.*
