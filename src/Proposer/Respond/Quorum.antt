-- ===== src/Proposer/Respond/Quorum.antt =====
-- How many acceptors have promised when a proposer goes on to the accept phase.
use quarrel.Prelude.{
  ℕ, ◌+◌, ◌≤◌, ◌≡◌, ◌⊎◌, inl, inr, refl, ◌∙◌, ap, subst, not, ◌==◌, ltb, leb, [], some, Bool, true,
  false, ◌&&◌, arith, if◌then◌else◌, Bool-cases,
}
use quarrel.Prelude.Words.{u8}
use quarrel.Prelude.Int.{is_zero}
use quarrel.Ptype.PaxosState
use quarrel.Ptype.MsgType
use quarrel.Config.{Configure}
use quarrel.Ptype.{Proposal, PaxosMsg, copy_proposal_meta}
use quarrel.Proposer.State.{
  InstanceState, Outcome, phase, majority, set_value, set_value_once, update_prepare_id,
}
use quarrel.Proposer.Respond.{
  Local, copy_meta, note_last_vote, count_promise, judge_promise, finish_prepare,
  handle_prepare_rsp,
}
use quarrel.Proposer.Respond.Once.{is_open, counted}

-- A response by which its sender promises the ballot `pid`.
abbrev pub is_promise : ℕ → PaxosMsg → Bool
is_promise pid m =
    (m.type == MsgType.prepare_rsp)
    && is_zero m.errcode
    && (m.proposal.status == PaxosState.promised)
    && leb m.proposal.pid pid

abbrev pub vote : Bool → ℕ
vote b = if b then 1 else 0

-- The request of the instance has the ballot `pid`.
abbrev pub Asks : ℕ → InstanceState → Type 0
Asks pid s = (req : PaxosMsg) × (s.req ≡ some req) × (req.proposal.pid ≡ pid)

-- A local state with no broadcast that is still in the phase of `s`, and counts `n` more promises.
abbrev pub Stays : ℕ → ℕ → InstanceState → Local → Type 0
Stays pid n s l =
    (l.sent ≡ [])
    × Asks pid l.state
    × (phase l.state.state ≡ phase s.state)
    × (l.state.valid_rsp_count ≤ s.valid_rsp_count + n)

copy_proposal_meta-pid : (d s : Proposal) → (copy_proposal_meta d s).1.pid ≡ d.pid
unfolding copy_proposal_meta
copy_proposal_meta-pid d s = ground arith

pub note_last_vote_keeps :
    (rsp : PaxosMsg) (req : Proposal) (s : InstanceState)
    → ((note_last_vote rsp req s).1.req ≡ s.req)
      × (phase (note_last_vote rsp req s).1.state ≡ phase s.state)
      × ((note_last_vote rsp req s).1.valid_rsp_count ≡ s.valid_rsp_count)
unfolding note_last_vote
note_last_vote_keeps rsp req s = ground arith

count_promise_short :
    (cfg : Configure) (rsp : PaxosMsg) (req : Proposal) (done : Bool) (s : InstanceState)
    → leb (majority cfg) (u8 ((note_last_vote rsp req s).1.valid_rsp_count + 1)) ≡ false
    → count_promise cfg rsp req done s ≡ record {
      state = counted rsp req s;
      sent = [];
      ret = rsp.errcode;
      done = done;
      first_got_lastv = (note_last_vote rsp req s).0;
    }
unfolding count_promise
count_promise_short cfg rsp req done s h = ground arith

count_promise_counts :
    (cfg : Configure) (rsp : PaxosMsg) (pid : ℕ) (req : Proposal) (done : Bool) (s : InstanceState)
    → Asks pid s
    → Stays pid 1 s (count_promise cfg rsp req done s) ⊎ (majority cfg ≤ s.valid_rsp_count + 1)
count_promise_counts cfg rsp pid req done s (r, e, p) =
    let (a, b, c) = note_last_vote_keeps rsp req s in
    let n = (note_last_vote rsp req s).1.valid_rsp_count in
    elim (Bool-cases (leb (majority cfg) (u8 (n + 1)))) [
      | inl f ↦ inr (ground arith)
      | inr f ↦
          rw (count_promise_short cfg rsp req done s f) (inl (refl, (r, a ∙ e, p), b, omega arith))
    ]

-- The state in which a promise is counted.
abbrev pub at_promise : PaxosMsg → PaxosMsg → InstanceState → InstanceState
at_promise req rsp s = copy_meta req rsp.proposal (record s { rsp_count = u8 (s.rsp_count + 1) })

-- Only a promise is counted.
pub judge_promise_cases :
    (cfg : Configure) (rsp req : PaxosMsg) (s : InstanceState)
    → s.req ≡ some req
    → Stays req.proposal.pid 0 s (judge_promise cfg rsp req s)
      ⊎ ((is_promise req.proposal.pid rsp ≡ true)
          × Asks req.proposal.pid (at_promise req rsp s)
          × ((done : Bool) × (judge_promise cfg rsp req s
                ≡ count_promise cfg rsp req.proposal done (at_promise req rsp s))))
unfolding judge_promise update_prepare_id copy_meta
judge_promise_cases cfg rsp req s h =
    let m = copy_proposal_meta-pid req.proposal rsp.proposal in
    elim (Bool-cases (not (rsp.type == MsgType.prepare_rsp))) [
      | inl e ↦ rw e (inl (refl, (req, h, refl), refl, omega arith))
      | inr e ↦ rw e (elim (Bool-cases (not (is_zero rsp.errcode))) [
        | inl f ↦ rw f (inl (refl, (req, h, refl), refl, omega arith))
        | inr f ↦ rw f (elim (Bool-cases (not (rsp.proposal.status == PaxosState.promised))) [
          | inl g ↦ rw g (inl (refl, (req, h, refl), refl, omega arith))
          | inr g ↦ rw g (elim (Bool-cases (ltb req.proposal.pid rsp.proposal.pid)) [
            | inl k ↦ rw k (inl (refl, (_, refl, m), refl, omega arith))
            | inr k ↦ rw k (inr (ground arith, (_, refl, m), (_, refl)))
          ])
        ])
      ])
    ]

judge_promise_counts :
    (cfg : Configure) (rsp req : PaxosMsg) (s : InstanceState)
    → s.req ≡ some req
    → Stays req.proposal.pid
        (vote (is_promise req.proposal.pid rsp))
        s
        (judge_promise cfg rsp req s)
      ⊎ ((is_promise req.proposal.pid rsp ≡ true) × (majority cfg ≤ s.valid_rsp_count + 1))
unfolding copy_meta
judge_promise_counts cfg rsp req s h = elim (judge_promise_cases cfg rsp req s h) [
  | inl (quiet, asks, same, few) ↦ inl (quiet, asks, same, omega arith)
  | inr (v, asks, (done, e)) ↦
      rw (v, e)
        (elim (count_promise_counts cfg rsp req.proposal.pid req.proposal done _ asks) [
          | inl x ↦ inl x
          | inr y ↦ inr (refl, y)
        ])
]

pub finish_prepare_keeps :
    (l : Local)
    → ((finish_prepare l).sent ≡ l.sent)
      × ((is_open (finish_prepare l).state ≡ false)
          ⊎ (((finish_prepare l).state.req ≡ l.state.req)
              × ((finish_prepare l).state.state ≡ l.state.state)
              × ((finish_prepare l).state.valid_rsp_count ≡ l.state.valid_rsp_count)))
unfolding finish_prepare set_value set_value_once
finish_prepare_keeps l = ground arith

-- A state that waits for promises of the ballot `pid`, and has counted at most `n` of them.
abbrev pub Waits : ℕ → ℕ → InstanceState → Type 0
Waits pid n s = Asks pid s × (phase s.state ≡ PaxosState.preparing) × (s.valid_rsp_count ≤ n)

-- What the response `rsp` may lead to.
abbrev pub Steps : Configure → ℕ → ℕ → PaxosMsg → Outcome → Type 0
Steps cfg pid n rsp o =
    ((o.sent ≡ [])
      × (Waits pid (n + vote (is_promise pid rsp)) o.state ⊎ (is_open o.state ≡ false)))
    ⊎ (majority cfg ≤ n + vote (is_promise pid rsp))

finish_prepare-Steps :
    (cfg : Configure) (pid n : ℕ) (rsp : PaxosMsg) (s : InstanceState) (l : Local)
    → phase s.state ≡ PaxosState.preparing
    → s.valid_rsp_count ≤ n
    → Stays pid (vote (is_promise pid rsp)) s l
    → Steps cfg pid n rsp (finish_prepare l)
finish_prepare-Steps cfg pid n rsp s l ph le (quiet, (r, e, p), same, more) =
    let (sent, after) = finish_prepare_keeps l in
    elim after [
      | inl shut ↦ inl (sent ∙ quiet, inr shut)
      | inr (a, b, c) ↦ inl (sent ∙ quiet, inl ((r, a ∙ e, p), ap phase b ∙ same ∙ ph, omega arith))
    ]

pub handle_prepare_rsp-Steps :
    (cfg : Configure) (pid n : ℕ) (rsp : PaxosMsg) (s : InstanceState)
    → Waits pid n s
    → Steps cfg pid n rsp (handle_prepare_rsp cfg rsp s)
unfolding handle_prepare_rsp
handle_prepare_rsp-Steps cfg pid n rsp s ((req, e, p), ph, le) =
    let run : handle_prepare_rsp cfg rsp s ≡ finish_prepare (judge_promise cfg rsp req s) =
      rw e refl in
    let c = judge_promise_counts cfg rsp req s e in
    rw run (elim c [
      | inl stays ↦
          finish_prepare-Steps cfg pid n rsp s (judge_promise cfg rsp req s) ph le
            (subst (λ x. Stays x (vote (is_promise x rsp)) s (judge_promise cfg rsp req s)) p stays)
      | inr (yes_, enough) ↦
          let v : is_promise pid rsp ≡ true = subst (λ x. is_promise x rsp ≡ true) p yes_ in
          inr (rw v (omega arith))
    ])
