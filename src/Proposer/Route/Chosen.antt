-- ===== src/Proposer/Route/Chosen.antt =====
-- The quorum of accepts, over any sequence of responses to an instance.
use quarrel.Prelude.{
  ℕ, ◌+◌, ◌≤◌, ◌≡◌, ◌⊎◌, inl, inr, refl, ◌∙◌, ap, List, [], ◌∷◌, ◌++◌, some, true, false, arith,
}
use quarrel.Config.{Configure}
use quarrel.Ptype.{Proposal, PaxosMsg}
use quarrel.Proposer.State.{InstanceState, Outcome, majority}
use quarrel.Proposer.Respond.{handle_accept_rsp, as_chosen_req}
use quarrel.Proposer.Respond.Once.{is_open}
use quarrel.Proposer.Respond.Quorum.{vote}
use quarrel.Proposer.Respond.Chosen.{Awaits, is_accept, handle_accept_rsp-Steps}
use quarrel.Proposer.Route.{respond, ignored}
use quarrel.Proposer.Route.Laws.{respond_cases}
use quarrel.Proposer.Route.Quorum.{broadcasts, shut_silent, quiet_step}

abbrev pub accepts : Proposal → List (ℕ × PaxosMsg) → ℕ
accepts r [] = 0
accepts r ((term, m) ∷ ms) = vote (is_accept r m) + accepts r ms

-- The only broadcast is that of one of the accepting responses, as chosen.
abbrev pub OneChosen : Configure → Proposal → List PaxosMsg → Type 0
OneChosen cfg r sent = (m : PaxosMsg) × (is_accept r m ≡ true) × (sent ≡ as_chosen_req cfg m ∷ [])

loud_step :
    (cfg : Configure) (term : ℕ) (m : PaxosMsg) (ms : List (ℕ × PaxosMsg)) (s : InstanceState)
    (o : Outcome)
    → respond cfg term (some m) s ≡ o
    → o.sent ≡ as_chosen_req cfg m ∷ []
    → is_open o.state ≡ false
    → broadcasts cfg ((term, m) ∷ ms) s ≡ as_chosen_req cfg m ∷ []
unfolding broadcasts
loud_step cfg term m ms s o e q shut =
    ap (λ (x : Outcome). x.sent ++ broadcasts cfg ms x.state) e
    ∙ ap (λ (l : List PaxosMsg). l ++ broadcasts cfg ms o.state) q
    ∙ ap (λ (l : List PaxosMsg). as_chosen_req cfg m ∷ l) (shut_silent cfg ms o.state shut)

broadcasts_chosen :
    (cfg : Configure) (ms : List (ℕ × PaxosMsg)) (r : Proposal) (n : ℕ) (s : InstanceState)
    → Awaits r n s
    → (broadcasts cfg ms s ≡ [])
      ⊎ ((majority cfg ≤ n + accepts r ms) × OneChosen cfg r (broadcasts cfg ms s))
unfolding broadcasts
broadcasts_chosen cfg [] r n s w = inl refl
broadcasts_chosen cfg ((term, m) ∷ ms) r n s w = elim (respond_cases cfg term m s) [
  | inl e ↦
      let same = quiet_step cfg term m ms s (ignored s) e refl in
      elim (broadcasts_chosen cfg ms r n s w) [
        | inl silent ↦ inl (same ∙ silent)
        | inr (k, (x, v, y)) ↦ inr (omega arith, (x, v, same ∙ y))
      ]
  | inr o ↦ elim o [
    | inl (ph, e) ↦ absurd (omega (arith, ph, w.1))
    | inr (_, e) ↦
        let a = handle_accept_rsp cfg m s in
        elim (handle_accept_rsp-Steps cfg r n m s w) [
          | inr (enough, v, told, shut) ↦
              inr (omega arith, (m, v, loud_step cfg term m ms s a e told shut))
          | inl (quiet, next) ↦
              let same = quiet_step cfg term m ms s a e quiet in
              elim next [
                | inr shut ↦ inl (same ∙ shut_silent cfg ms a.state shut)
                | inl w' ↦ elim (broadcasts_chosen cfg ms r (n + vote (is_accept r m)) a.state w') [
                  | inl silent ↦ inl (same ∙ silent)
                  | inr (k, (x, v, y)) ↦ inr (omega arith, (x, v, same ∙ y))
                ]
              ]
        ]
  ]
]

-- An instance that waits for acceptors of the request `r`, and has counted none yet, broadcasts
-- nothing while it handles a sequence of responses, whatever they are and whatever their terms; or
-- it broadcasts once, the chosen request made of a response that accepts `r`, and then the responses
-- of the sequence that accept `r` (no error, the state accepted, the ballot and the value id of `r`)
-- are a majority of the acceptors' number at least.
pub chosen_needs_quorum :
    (cfg : Configure) (ms : List (ℕ × PaxosMsg)) (r : Proposal) (s : InstanceState)
    → Awaits r 0 s
    → (broadcasts cfg ms s ≡ [])
      ⊎ ((majority cfg ≤ accepts r ms) × OneChosen cfg r (broadcasts cfg ms s))
chosen_needs_quorum cfg ms r s w = elim (broadcasts_chosen cfg ms r 0 s w) [
  | inl silent ↦ inl silent
  | inr (k, one) ↦ inr (omega arith, one)
]
