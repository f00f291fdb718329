-- ===== src/Ptype.antt =====
-- core/ptype.h and core/ptype.cpp: proposals, messages, and how they are allocated and copied.
-- A field holds the number of the machine word; `payload` holds the bytes behind `data_`.
pub mod ErrCode
pub mod PaxosState
pub mod MsgType
pub mod Laws
use quarrel.Prelude.{
  ℕ, ◌+◌, ◌≡◌, ◌&&◌, not, List, [], ◌∷◌, length, take, replicate, ltb, ◌==◌, if◌then◌else◌,
}
use quarrel.Prelude.Int.{ℤ, pos}
use quarrel.Prelude.Words.{u32}

pub record Proposal : Type 0 where
  pub pid : ℕ  -- uint64_t; 0 marks a read probe
  pub term : ℕ  -- uint64_t
  pub pinst : ℕ  -- uint64_t
  pub pentry : ℕ  -- uint64_t
  pub last_chosen : ℕ  -- uint64_t
  pub last_chosen_from : ℕ  -- uint16_t
  pub proposer : ℕ  -- uint16_t
  pub size : ℕ  -- uint32_t
  pub status : ℕ  -- uint32_t
  pub opaque : ℕ  -- uint64_t
  pub value_id : ℕ  -- uint64_t
  pub payload : List ℕ

pub record PaxosMsg : Type 0 where
  pub magic : ℕ  -- uint32_t
  pub size : ℕ  -- uint32_t
  pub type : ℕ  -- uint32_t
  pub version : ℕ  -- uint32_t
  pub from : ℕ  -- uint32_t
  pub errcode : ℤ  -- int32_t
  pub reqid : ℕ  -- uint64_t
  pub proposal : Proposal  -- what `GetProposalFromMsg` finds at `data_`

-- `offsetof(Proposal, data_)` of the packed struct
abbrev pub proposal_header_sz : ℕ
proposal_header_sz = 68

-- The bytes behind `data_` are as many as `size_` says.
abbrev pub IsSized : Proposal → Type 0
IsSized p = length p.payload ≡ p.size

-- `calloc` gives zeros. An allocation is taken to succeed.
unfoldable pub alloc_proposal : ℕ → Proposal
alloc_proposal value_size = record {
  pid = 0;
  term = 0;
  pinst = 0;
  pentry = 0;
  last_chosen = 0;
  last_chosen_from = 0;
  proposer = 0;
  size = value_size;
  status = 0;
  opaque = 0;
  value_id = 0;
  payload = replicate value_size 0;
}

unfoldable pub alloc_proposal_msg : ℕ → PaxosMsg
unfolding alloc_proposal
alloc_proposal_msg value_size = record {
  magic = 0xbadf00d;
  size = u32 (proposal_header_sz + value_size);
  type = 0;
  version = 0;
  from = 0;
  errcode = pos 0;
  reqid = 0;
  proposal = alloc_proposal value_size;
}

-- `memcpy(dst, &src, ProposalHeaderSz + n)`, where `n` bytes stand behind `dst`'s header.
abbrev pub copy_bytes : ℕ → Proposal → Proposal
copy_bytes n src = record src { payload = take n src.payload }

unfoldable pub clone_proposal : Proposal → Proposal
clone_proposal pm = copy_bytes pm.size pm

unfoldable pub clone_proposal_msg : PaxosMsg → PaxosMsg
clone_proposal_msg pm = record pm { proposal = copy_bytes pm.proposal.size pm.proposal }

-- The count of fields changed, and `dst` afterwards.
unfoldable pub copy_proposal_meta : Proposal → Proposal → ℕ × Proposal
copy_proposal_meta dst src =
    let (c, d) = newer_term dst src in
    if not (src.opaque == d.opaque) then (c + 1, record d { opaque = src.opaque }) else (c, d)
  where
    newer_term : Proposal → Proposal → ℕ × Proposal
    newer_term d s = if ltb d.term s.term then (1, record d { term = s.term }) else (0, d)

unfoldable pub gen_dummy_proposal : Proposal
unfolding alloc_proposal
gen_dummy_proposal = record (alloc_proposal 1) { size = 1 }
