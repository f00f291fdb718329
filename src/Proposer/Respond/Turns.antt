-- ===== src/Proposer/Respond/Turns.antt =====
-- How a proposer leaves the prepare phase: with one accept request, under the ballot it prepared.
use quarrel.Prelude.{
  ℕ, ◌≡◌, ◌⊎◌, inl, inr, refl, ◌∙◌, ap, subst, ltb, ◌==◌, List, [], ◌∷◌, some, Bool, false,
  Bool-cases, Option-cases,
}
use quarrel.Config.{Configure}
use quarrel.Ptype.{Proposal, PaxosMsg}
use quarrel.Ptype.PaxosState
use quarrel.Ptype.MsgType
use quarrel.Proposer.State.{InstanceState, phase, is_returned, as_accept_req, setup_phase}
use quarrel.Proposer.Respond.{
  copy_meta, start_accept, enter_accept, count_promise, judge_promise, finish_prepare,
  handle_prepare_rsp,
}
use quarrel.Proposer.Respond.Once.{is_open, counted, count_promise_cases}
use quarrel.Proposer.Respond.Quorum.{
  Asks, note_last_vote_keeps, judge_promise_cases, at_promise, finish_prepare_keeps,
}

-- In the phase `p`, the request under the ballot `pid`.
abbrev pub InPhase : ℕ → ℕ → InstanceState → Type 0
InPhase p pid s = Asks pid s × (phase s.state ≡ p)

-- Either nothing was broadcast and the phase is the same, or the accept phase begins with a request.
abbrev pub Turns : ℕ → List PaxosMsg → InstanceState → Type 0
Turns pid sent s =
    ((sent ≡ []) × InPhase PaxosState.preparing pid s)
    ⊎ (((am : PaxosMsg) × ((am.type == MsgType.chosen_req) ≡ false) × (sent ≡ am ∷ []))
        × InPhase PaxosState.accepting pid s
        × (s.valid_rsp_count ≡ 0))

-- No broadcast says that a value is chosen.
abbrev pub Mute : List PaxosMsg → Type 0
Mute sent =
    (sent ≡ []) ⊎ ((am : PaxosMsg) × ((am.type == MsgType.chosen_req) ≡ false) × (sent ≡ am ∷ []))

Turns-Mute : (pid : ℕ) (sent : List PaxosMsg) (s : InstanceState) → Turns pid sent s → Mute sent
Turns-Mute pid sent s (inl (quiet, _)) = inl quiet
Turns-Mute pid sent s (inr (one, _, _)) = inr one

Turns-moved :
    (pid : ℕ) (sent : List PaxosMsg) (s s' : InstanceState)
    → s'.req ≡ s.req
    → s'.state ≡ s.state
    → s'.valid_rsp_count ≡ s.valid_rsp_count
    → Turns pid sent s
    → Turns pid sent s'
Turns-moved pid sent s s' a b c (inl (quiet, ((r, e, p), ph))) =
    inl (quiet, ((r, a ∙ e, p), ap phase b ∙ ph))
Turns-moved pid sent s s' a b c (inr (one, ((r, e, p), ph), v)) =
    inr (one, ((r, a ∙ e, p), ap phase b ∙ ph), c ∙ v)

start_accept-Asks :
    (cfg : Configure) (pid : ℕ) (s : InstanceState)
    → Asks pid s
    → Asks pid (start_accept cfg s).1
      × (((start_accept cfg s).0.type == MsgType.chosen_req) ≡ false)
unfolding start_accept as_accept_req
start_accept-Asks cfg pid s (req, e, p) = elim (Bool-cases (is_returned s.state)) [
  | inr f ↦ rw (f, start_accept, e, f) ((_, refl, p), refl)
  | inl f ↦
      rw (f, start_accept)
        (elim (Option-cases s.lastv) [
          | inl none_ ↦ rw none_ ((req, e, p), refl)
          | inr (v, v_) ↦ rw (v_, f) ((req, e, p), refl)
        ])
]

enter_accept-Turns :
    (cfg : Configure) (pid : ℕ) (rsp : Proposal) (first : Bool) (ret : _) (s : InstanceState)
    → InPhase PaxosState.preparing pid s
    → Turns pid (enter_accept cfg rsp first ret s).sent (enter_accept cfg rsp first ret s).state
unfolding enter_accept setup_phase
enter_accept-Turns cfg pid rsp first ret s (asks, ph) =
    let (a, t) = start_accept-Asks cfg pid s asks in
    elim (Bool-cases (ltb 0 rsp.pid)) [
      | inr f ↦ rw f (inl (refl, (asks, ph)))
      | inl f ↦ rw f (elim (Bool-cases (is_returned s.state)) [
        | inl g ↦ rw g (inr ((_, t, refl), (a, refl), refl))
        | inr g ↦ rw g (inr ((_, t, refl), (a, refl), refl))
      ])
    ]

count_promise-Turns :
    (cfg : Configure) (pid : ℕ) (rsp : PaxosMsg) (req : Proposal) (done : Bool) (s : InstanceState)
    → InPhase PaxosState.preparing pid s
    → Turns pid (count_promise cfg rsp req done s).sent (count_promise cfg rsp req done s).state
count_promise-Turns cfg pid rsp req done s ((r, e, p), ph) =
    let (a, b, _) = note_last_vote_keeps rsp req s in
    let now : InPhase PaxosState.preparing pid (counted rsp req s) = ((r, a ∙ e, p), b ∙ ph) in
    elim (count_promise_cases cfg rsp req done s) [
      | inl run ↦ rw run (enter_accept-Turns cfg pid rsp.proposal _ rsp.errcode _ now)
      | inr run ↦ rw run (inl (refl, now))
    ]

judge_promise-Turns :
    (cfg : Configure) (rsp req : PaxosMsg) (s : InstanceState)
    → s.req ≡ some req
    → phase s.state ≡ PaxosState.preparing
    → Turns req.proposal.pid (judge_promise cfg rsp req s).sent (judge_promise cfg rsp req s).state
unfolding copy_meta
judge_promise-Turns cfg rsp req s h ph = elim (judge_promise_cases cfg rsp req s h) [
  | inl (quiet, asks, same, _) ↦ inl (quiet, (asks, same ∙ ph))
  | inr (_, asks, (done, run)) ↦ rw run (
      count_promise-Turns cfg req.proposal.pid rsp req.proposal done (at_promise req rsp s)
        (asks, ph))
]

-- In the prepare phase, a response leaves the request open in that phase and sends nothing; or it
-- begins the accept phase for the same ballot with one broadcast; or the request is over.
pub handle_prepare_rsp-Turns :
    (cfg : Configure) (pid : ℕ) (rsp : PaxosMsg) (s : InstanceState)
    → InPhase PaxosState.preparing pid s
    → let o = handle_prepare_rsp cfg rsp s in
      Turns pid o.sent o.state ⊎ (Mute o.sent × (is_open o.state ≡ false))
unfolding handle_prepare_rsp
handle_prepare_rsp-Turns cfg pid rsp s ((req, e, p), ph) =
    let l = judge_promise cfg rsp req s in
    let run : handle_prepare_rsp cfg rsp s ≡ finish_prepare l = rw e refl in
    let (sent, after) = finish_prepare_keeps l in
    let turns : Turns pid l.sent l.state =
      subst (λ x. Turns x l.sent l.state) p (judge_promise-Turns cfg rsp req s e ph) in
    rw run (elim after [
      | inl shut ↦ inr (rw sent (Turns-Mute pid l.sent l.state turns), shut)
      | inr (a, b, c) ↦
          inl (rw sent (Turns-moved pid l.sent l.state (finish_prepare l).state a b c turns))
    ])
