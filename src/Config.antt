-- ===== src/Config.antt =====
-- core/config.h: the settings that the modelled code reads.
use quarrel.Prelude.{ℕ, List}

-- Two addresses are the same if all three fields are. `addr_` is its characters.
pub record AddrInfo : Type 0 where
  pub id : ℕ  -- uint32_t
  pub type : ℕ  -- int, one of 1, 2 and 3
  pub addr : List ℕ

pub record Configure : Type 0 where
  pub timeout : ℕ
  pub pid_cookie : ℕ
  pub total_acceptor : ℕ
  pub total_proposer : ℕ
  pub pg_type : ℕ
  pub acceptor_worker_count : ℕ
  pub proposer_worker_count : ℕ
  pub entry_cache_num : ℕ
  pub worker_msg_queue_sz : ℕ
  pub msg_version : ℕ
  pub plog_inst_num : ℕ
  pub local : AddrInfo
  pub peer : List AddrInfo
