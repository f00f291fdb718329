-- ===== src/Plog/Entry.antt =====
-- `Entry` of core/plog.h: one slot of a log, in memory.
use quarrel.Prelude.{ℕ, Option, none, some}
use quarrel.Prelude.Int.{ℤ}
use quarrel.Ptype.{Proposal}
use quarrel.Ptype.ErrCode
use quarrel.Ptype.PaxosState

pub record Entry : Type 0 where
  pub pinst : ℕ
  pub entry : ℕ
  pub accepted : Option Proposal
  pub promised : Option Proposal

-- The constructor.
unfoldable pub new_entry : ℕ → ℕ → Entry
new_entry pinst entry = record { pinst = pinst; entry = entry; accepted = none; promised = none }

unfoldable pub set_accepted : Option Proposal → Entry → Entry
set_accepted p e = record e { accepted = p }

unfoldable pub set_promised : Option Proposal → Entry → Entry
set_promised p e = record e { promised = p }

unfoldable pub status : Entry → ℕ
status e = elim e.accepted [
  | some a ↦ a.status
  | none ↦ elim e.promised [ some p ↦ p.status | none ↦ PaxosState.invalid_proposal ]
]

unfoldable pub set_chosen : Entry → ℤ × Entry
set_chosen e = elim e.accepted [
  | none ↦ (ErrCode.proposal_not_exist, e)
  | some a ↦ (ErrCode.ok, record e { accepted = some (record a { status = PaxosState.chosen }) })
]
