-- ===== src/Acceptor/Defs.antt =====
-- The acceptor's state and its handlers, in parts.
mod State
mod Prepare
mod Accept
mod Chosen
mod Dispatch
unfoldable pub use State.*
unfoldable pub use Prepare.*
unfoldable pub use Accept.*
unfoldable pub use Chosen.*
unfoldable pub use Dispatch.*
