-- ===== src/Ptype/Laws.antt =====
-- Copies of proposals.
use quarrel.Prelude.{◌≡◌, refl, take_of_eq-length}
use quarrel.Ptype.{Proposal, IsSized, clone_proposal}

-- A clone of a proposal whose size field is right is the proposal.
pub clone_proposal_id : (p : Proposal) → IsSized p → clone_proposal p ≡ p
unfolding clone_proposal
clone_proposal_id p h = rw (take_of_eq-length p.size p.payload h)

pub clone_proposal-pid : (p : Proposal) → (clone_proposal p).pid ≡ p.pid
unfolding clone_proposal
clone_proposal-pid p = refl
