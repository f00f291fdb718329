-- ===== src/Proposer/Respond/Chosen.antt =====
-- How many acceptors have accepted when a proposer declares a value chosen.
use quarrel.Prelude.{
  ℕ, ◌+◌, ◌≤◌, ◌≡◌, ◌⊎◌, inl, inr, refl, sym, ◌∙◌, ap, subst, not, ◌==◌, leb, [], ◌∷◌, some, Bool,
  true, false, ◌&&◌, arith, Bool-cases,
}
use quarrel.Prelude.Words.{u8}
use quarrel.Prelude.Int.{is_zero}
use quarrel.Ptype.PaxosState
use quarrel.Ptype.MsgType
use quarrel.Config.{Configure}
use quarrel.Ptype.{Proposal, PaxosMsg, copy_proposal_meta}
use quarrel.Proposer.State.{
  InstanceState, Outcome, phase, majority, set_value, set_value_once, update_prepare_id,
}
use quarrel.Proposer.Respond.{
  Local, copy_meta, count_accept, judge_accepted, finish_accept, handle_accept_rsp, as_chosen_req,
}
use quarrel.Proposer.Respond.Once.{is_open}
use quarrel.Proposer.Respond.Quorum.{vote}

-- A response by which its sender has accepted the request's value under its ballot.
abbrev pub is_accept : Proposal → PaxosMsg → Bool
is_accept req m =
    (m.type == MsgType.accept_rsp)
    && is_zero m.errcode
    && (m.proposal.status == PaxosState.accepted)
    && (m.proposal.pid == req.pid)
    && (m.proposal.value_id == req.value_id)

-- The request of the instance has the ballot and the value of `r`.
abbrev pub SameValue : Proposal → InstanceState → Type 0
SameValue r s =
    (req : PaxosMsg) × (s.req ≡ some req)
    × (req.proposal.pid ≡ r.pid)
    × (req.proposal.value_id ≡ r.value_id)

-- A state that waits for acceptors of `r`, and has counted at most `n` of them.
abbrev pub Awaits : Proposal → ℕ → InstanceState → Type 0
Awaits r n s = SameValue r s × (phase s.state ≡ PaxosState.accepting) × (s.valid_rsp_count ≤ n)

abbrev pub Stays : Proposal → ℕ → InstanceState → Local → Type 0
Stays r n s l =
    (l.sent ≡ [])
    × SameValue r l.state
    × (phase l.state.state ≡ phase s.state)
    × (l.state.valid_rsp_count ≤ s.valid_rsp_count + n)

-- The end of the accept phase: a majority has accepted, the response is broadcast as chosen, and the
-- client is told that all is well.
abbrev pub Chosen : Configure → ℕ → PaxosMsg → Local → Type 0
Chosen cfg n m l =
    (majority cfg ≤ n) × (l.sent ≡ as_chosen_req cfg m ∷ []) × (l.done ≡ true) × (l.ret ≡ m.errcode)

copy_proposal_meta_same :
    (d s : Proposal)
    → ((copy_proposal_meta d s).1.pid ≡ d.pid) × ((copy_proposal_meta d s).1.value_id ≡ d.value_id)
unfolding copy_proposal_meta
copy_proposal_meta_same d s = ground arith

count_accept_counts :
    (cfg : Configure) (m : PaxosMsg) (r : Proposal) (done : Bool) (s : InstanceState)
    → SameValue r s
    → Stays r 1 s (count_accept cfg m done s)
      ⊎ Chosen cfg (s.valid_rsp_count + 1) m (count_accept cfg m done s)
unfolding count_accept
count_accept_counts cfg m r done s v =
    elim (Bool-cases (leb (majority cfg) (u8 (s.valid_rsp_count + 1)))) [
      | inl f ↦ rw f (inr (ground arith, refl, refl, refl))
      | inr f ↦ rw f (inl (refl, v, refl, omega arith))
    ]

judge_accepted_counts :
    (cfg : Configure) (m req : PaxosMsg) (s : InstanceState)
    → s.req ≡ some req
    → Stays req.proposal (vote (is_accept req.proposal m)) s (judge_accepted cfg m req s)
      ⊎ ((is_accept req.proposal m ≡ true)
          × Chosen cfg (s.valid_rsp_count + 1) m (judge_accepted cfg m req s))
unfolding judge_accepted update_prepare_id copy_meta
judge_accepted_counts cfg m req s h =
    let (a, b) = copy_proposal_meta_same req.proposal m.proposal in
    elim (Bool-cases (not (m.type == MsgType.accept_rsp))) [
      | inl e ↦ rw e (inl (refl, (req, h, refl, refl), refl, omega arith))
      | inr e ↦ rw e (elim (Bool-cases (not (is_zero m.errcode))) [
        | inl f ↦ rw f (inl (refl, (req, h, refl, refl), refl, omega arith))
        | inr f ↦ rw f (elim (Bool-cases (not (m.proposal.status == PaxosState.accepted))) [
          | inl g ↦ rw g (inl (refl, (req, h, refl, refl), refl, omega arith))
          | inr g ↦ rw g (elim (Bool-cases (not (m.proposal.pid == req.proposal.pid))) [
            | inl k ↦ rw k (inl (refl, (_, refl, a, b), refl, omega arith))
            | inr k ↦ rw k (elim (Bool-cases (not (m.proposal.value_id == req.proposal.value_id))) [
              | inl j ↦ rw j (inl (refl, (_, refl, a, b), refl, omega arith))
              | inr j ↦
                  let v : is_accept req.proposal m ≡ true = ground arith in
                  rw (j, v)
                    (elim (count_accept_counts cfg m req.proposal _ _ (_, refl, a, b)) [
                      | inl x ↦ inl x
                      | inr y ↦ inr (refl, y)
                    ])
            ])
          ])
        ])
      ])
    ]

finish_accept_keeps :
    (l : Local)
    → ((finish_accept l).sent ≡ l.sent)
      × ((is_open (finish_accept l).state ≡ false)
          ⊎ (((finish_accept l).state.req ≡ l.state.req)
              × ((finish_accept l).state.state ≡ l.state.state)
              × ((finish_accept l).state.valid_rsp_count ≡ l.state.valid_rsp_count)))
unfolding finish_accept set_value set_value_once
finish_accept_keeps l = ground arith

finish_accept_done :
    (l : Local)
    → l.done ≡ true
    → (is_open (finish_accept l).state ≡ false) × ((finish_accept l).value ≡ l.ret)
unfolding finish_accept set_value set_value_once
finish_accept_done l h = ground arith

-- What the response `m` may lead to.
abbrev pub Steps : Configure → Proposal → ℕ → PaxosMsg → Outcome → Type 0
Steps cfg r n m o =
    ((o.sent ≡ []) × (Awaits r (n + vote (is_accept r m)) o.state ⊎ (is_open o.state ≡ false)))
    ⊎ ((majority cfg ≤ n + vote (is_accept r m))
        × (is_accept r m ≡ true)
        × (o.sent ≡ as_chosen_req cfg m ∷ [])
        × (is_open o.state ≡ false))

finish_accept-Steps :
    (cfg : Configure) (r : Proposal) (n : ℕ) (m : PaxosMsg) (s : InstanceState) (l : Local)
    → phase s.state ≡ PaxosState.accepting
    → s.valid_rsp_count ≤ n
    → Stays r (vote (is_accept r m)) s l
      ⊎ ((is_accept r m ≡ true) × Chosen cfg (s.valid_rsp_count + 1) m l)
    → Steps cfg r n m (finish_accept l)
finish_accept-Steps cfg r n m s l ph le c =
    let (sent, after) = finish_accept_keeps l in
    elim c [
      | inr (v, (enough, told, done, code)) ↦
          inr (rw v (omega arith), v, sent ∙ told, (finish_accept_done l done).0)
      | inl (quiet, (q, e, p, v), same, more) ↦ elim after [
        | inl shut ↦ inl (sent ∙ quiet, inr shut)
        | inr (a, b, d) ↦
            inl (sent ∙ quiet, inl ((q, a ∙ e, p, v), ap phase b ∙ same ∙ ph, omega arith))
      ]
    ]

pub handle_accept_rsp-Steps :
    (cfg : Configure) (r : Proposal) (n : ℕ) (m : PaxosMsg) (s : InstanceState)
    → Awaits r n s
    → Steps cfg r n m (handle_accept_rsp cfg m s)
unfolding handle_accept_rsp
handle_accept_rsp-Steps cfg r n m s ((req, e, p, v), ph, le) =
    let run : handle_accept_rsp cfg m s ≡ finish_accept (judge_accepted cfg m req s) = rw e refl in
    let l = judge_accepted cfg m req s in
    let b : is_accept req.proposal m ≡ is_accept r m = rw (p, v) refl in
    let c = judge_accepted_counts cfg m req s e in
    rw run (
      finish_accept-Steps cfg r n m s l ph le (elim c [
        | inl (x, (q, y, py, vy), z, w) ↦ inl (
          x,
          (q, y, py ∙ p, vy ∙ v),
          z,
          subst (λ t. l.state.valid_rsp_count ≤ s.valid_rsp_count + vote t) b w,
        )
        | inr (yes_, rest) ↦ inr (sym b ∙ yes_, rest)
      ]))
