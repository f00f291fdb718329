-- ===== src/Proposer/Route/Ballot.antt =====
-- One run of a proposal, from the prepare phase to the end: the ballot of its two quorums.
use quarrel.Prelude.{
  ℕ, ◌≤◌, ◌≡◌, inl, inr, refl, ◌∙◌, sym, ap, List, [], ◌∷◌, ◌++◌, Bool, true, false, ◌||◌, ◌==◌,
  arith,
}
use quarrel.Config.{Configure}
use quarrel.Ptype.{Proposal, PaxosMsg}
use quarrel.Ptype.PaxosState
use quarrel.Ptype.MsgType
use quarrel.Proposer.State.{InstanceState, Outcome, majority}
use quarrel.Proposer.Respond.{handle_prepare_rsp}
use quarrel.Proposer.Respond.Quorum.{Waits}
use quarrel.Proposer.Respond.Turns.{InPhase, Mute, handle_prepare_rsp-Turns}
use quarrel.Proposer.Route.{ignored}
use quarrel.Proposer.Route.Laws.{respond_cases}
use quarrel.Proposer.Route.Quorum.{
  broadcasts, promises, shut_silent, quiet_step, broadcast_needs_quorum,
}
use quarrel.Proposer.Route.Chosen.{accepts, chosen_needs_quorum}

-- Among the broadcasts is one that a value is chosen.
abbrev pub declares : List PaxosMsg → Bool
declares [] = false
declares (m ∷ ms) = (m.type == MsgType.chosen_req) || declares ms

declares-Mute : (xs ys : List PaxosMsg) → Mute xs → declares (xs ++ ys) ≡ declares ys
declares-Mute xs ys (inl none_) = rw none_ refl
declares-Mute xs ys (inr (m, t, one)) = rw (one, t) refl

-- Some responses of the sequence accept, under the ballot `pid`, one value: a majority at least.
abbrev pub HasAccepts : Configure → ℕ → List (ℕ × PaxosMsg) → Type 0
HasAccepts cfg pid ms = (r : Proposal) × (r.pid ≡ pid) × (majority cfg ≤ accepts r ms)

accepting-declares :
    (cfg : Configure) (ms : List (ℕ × PaxosMsg)) (pid : ℕ) (s : InstanceState)
    → InPhase PaxosState.accepting pid s
    → s.valid_rsp_count ≡ 0
    → declares (broadcasts cfg ms s) ≡ true
    → HasAccepts cfg pid ms
accepting-declares cfg ms pid s ((req, e, p), ph) v told =
    elim (chosen_needs_quorum cfg ms req.proposal s ((req, e, refl, refl), ph, omega arith)) [
      | inl silent ↦ let bad : false ≡ true = ap declares (sym silent) ∙ told in cc
      | inr (enough, _) ↦ (req.proposal, p, enough)
    ]

HasAccepts-more :
    (cfg : Configure) (pid term : ℕ) (m : PaxosMsg) (ms : List (ℕ × PaxosMsg))
    → HasAccepts cfg pid ms
    → HasAccepts cfg pid ((term, m) ∷ ms)
HasAccepts-more cfg pid term m ms (r, e, k) = (r, e, omega arith)

preparing-declares :
    (cfg : Configure) (ms : List (ℕ × PaxosMsg)) (pid : ℕ) (s : InstanceState)
    → InPhase PaxosState.preparing pid s
    → declares (broadcasts cfg ms s) ≡ true
    → HasAccepts cfg pid ms
unfolding broadcasts
preparing-declares cfg [] pid s at told = cc
preparing-declares cfg ((term, m) ∷ ms) pid s at told = elim (respond_cases cfg term m s) [
  | inl e ↦ HasAccepts-more cfg pid term m ms (
      preparing-declares cfg ms pid s at
        (ap declares (sym (quiet_step cfg term m ms s (ignored s) e refl)) ∙ told))
  | inr o ↦ elim o [
    | inr (ph, e) ↦ absurd (omega (arith, ph, at.1))
    | inl (_, e) ↦
        let o = handle_prepare_rsp cfg m s in
        let said : declares (o.sent ++ broadcasts cfg ms o.state) ≡ true =
          ap (λ (x : Outcome). declares (x.sent ++ broadcasts cfg ms x.state)) (sym e) ∙ told in
        HasAccepts-more cfg pid term m ms (elim (handle_prepare_rsp-Turns cfg pid m s at) [
          | inr (mute, shut) ↦
              let later = sym (declares-Mute o.sent (broadcasts cfg ms o.state) mute) ∙ said in
              let none_ = shut_silent cfg ms o.state shut in
              let bad : false ≡ true = ap declares (sym none_) ∙ later in cc
          | inl (inl (quiet, at')) ↦
              let later =
                sym (declares-Mute o.sent (broadcasts cfg ms o.state) (inl quiet)) ∙ said in
              preparing-declares cfg ms pid o.state at' later
          | inl (inr (one, at', fresh)) ↦
              let later = sym (declares-Mute o.sent (broadcasts cfg ms o.state) (inr one)) ∙ said in
              accepting-declares cfg ms pid o.state at' fresh later
        ])
  ]
]

-- If an instance that waits for promises of the ballot `pid`, and has counted none yet, broadcasts a
-- value as chosen while it handles a sequence of responses, whatever they are and whatever their
-- terms, then of the responses of the sequence a majority of the number of acceptors at least are
-- promises of `pid`, and at least as many accept one and the same value under that same ballot `pid`.
pub declared_needs_quorums :
    (cfg : Configure) (ms : List (ℕ × PaxosMsg)) (pid : ℕ) (s : InstanceState)
    → Waits pid 0 s
    → declares (broadcasts cfg ms s) ≡ true
    → (majority cfg ≤ promises pid ms) × HasAccepts cfg pid ms
declared_needs_quorums cfg ms pid s w told =
    let (asks, ph, _) = w in
    (
      broadcast_needs_quorum cfg ms pid s w
          (λ silent. let bad : false ≡ true = ap declares (sym silent) ∙ told in cc),
      preparing-declares cfg ms pid s (asks, ph) told,
    )
