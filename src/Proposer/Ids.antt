-- ===== src/Proposer/Ids.antt =====
-- From which sequence a proposer draws its ids.
pub mod Apart
use quarrel.Prelude.{
  ℕ, suc, ◌+◌, ◌*◌, ◌^◌, ◌≤◌, ◌<◌, ◌≡◌, ◌≢◌, ◌⊎◌, inl, inr, refl, sym, ◌∙◌, ap, subst, List, [],
  ◌∷◌, Option, none, some, Bool, true, false, not, ltb, leb, ◌==◌, if◌then◌else◌, arith,
  Option-cases, Bool-cases,
}
use quarrel.Prelude.Int.{ℤ, is_zero}
use quarrel.Prelude.Words.{u8, u32}
use quarrel.Ptype.PaxosState
use quarrel.Ptype.MsgType
use quarrel.Config.{Configure}
use quarrel.Ptype.{Proposal, PaxosMsg}
use quarrel.IdGen
use quarrel.IdGen.{IdGen, set_greater_than, get_and_inc, reset}
use quarrel.IdGen.Laws.{Follows, get_and_inc-Follows, set_greater_than-Follows}
use quarrel.Proposer.State.{
  InstanceState, set_value, set_value_once, update_prepare_id, update_chosen_info, setup_phase,
  setup_wait_state, majority,
}
use quarrel.Proposer.Propose.{propose_async, alloc_paxos_msg, draw_pid}
use quarrel.Proposer.Respond.{
  Local, copy_meta, note_last_vote, start_accept, enter_accept, count_promise, judge_promise,
  finish_prepare, handle_prepare_rsp, count_accept, judge_accepted, finish_accept,
  handle_accept_rsp,
}
use quarrel.Proposer.Respond.Once.{
  counted, count_promise_cases, handle_prepare_rsp_cases, handle_accept_rsp_cases,
}
use quarrel.Proposer.Route.{respond, expire, ignored}
use quarrel.Proposer.Route.Laws.{Event, asked, heard, happen, happen_all, respond_cases}

-- What a handler may do to the generator: nothing, pass the id `v`, or start again.
abbrev pub MovesIds : ℕ → InstanceState → InstanceState → Type 0
MovesIds v s t =
    (t.proposer_id ≡ s.proposer_id)
    × ((t.ig ≡ s.ig)
        ⊎ (t.ig ≡ set_greater_than v s.ig)
        ⊎ (t.ig ≡ reset (u32 (s.proposer_id + 1)) s.ig))

abbrev pub KeepsIds : InstanceState → InstanceState → Type 0
KeepsIds s t = (t.proposer_id ≡ s.proposer_id) × (t.ig ≡ s.ig)

note_last_vote-KeepsIds :
    (rsp : PaxosMsg) (req : Proposal) (s : InstanceState) → KeepsIds s (note_last_vote rsp req s).1
unfolding note_last_vote
note_last_vote-KeepsIds rsp req s = ground arith

enter_accept-KeepsIds :
    (cfg : Configure) (rsp : Proposal) (first : Bool) (ret : ℤ) (s : InstanceState)
    → KeepsIds s (enter_accept cfg rsp first ret s).state
unfolding enter_accept start_accept setup_phase
enter_accept-KeepsIds cfg rsp first ret s = ground arith

count_promise-KeepsIds :
    (cfg : Configure) (rsp : PaxosMsg) (req : Proposal) (done : Bool) (s : InstanceState)
    → KeepsIds s (count_promise cfg rsp req done s).state
count_promise-KeepsIds cfg rsp req done s =
    let a = note_last_vote-KeepsIds rsp req s in
    let b =
      enter_accept-KeepsIds cfg rsp.proposal (note_last_vote rsp req s).0 rsp.errcode
        (counted rsp req s) in
    elim (count_promise_cases cfg rsp req done s) [
      | inl e ↦ rw e (b.0 ∙ a.0, b.1 ∙ a.1)
      | inr e ↦ rw e a
    ]

judge_promise-MovesIds :
    (cfg : Configure) (rsp req : PaxosMsg) (s : InstanceState)
    → MovesIds rsp.proposal.pid s (judge_promise cfg rsp req s).state
unfolding judge_promise update_prepare_id copy_meta
judge_promise-MovesIds cfg rsp req s = elim (Bool-cases (not (rsp.type == MsgType.prepare_rsp))) [
  | inl e ↦ rw e (refl, inl refl)
  | inr e ↦ rw e (elim (Bool-cases (not (is_zero rsp.errcode))) [
    | inl f ↦ rw f (refl, inl refl)
    | inr f ↦ rw f (elim (Bool-cases (not (rsp.proposal.status == PaxosState.promised))) [
      | inl g ↦ rw g (refl, inl refl)
      | inr g ↦ rw g (elim (Bool-cases (ltb req.proposal.pid rsp.proposal.pid)) [
        | inl k ↦ rw k (refl, inr (inl refl))
        | inr k ↦ rw k (
            let s1 = record s { rsp_count = u8 (s.rsp_count + 1) } in
            let c =
              count_promise-KeepsIds cfg rsp req.proposal (s1.rsp_count == cfg.total_acceptor)
                (copy_meta req rsp.proposal s1) in
            (c.0, inl c.1))
      ])
    ])
  ])
]

update_chosen_info-MovesIds :
    (v e f : ℕ) (s : InstanceState) → MovesIds v s (update_chosen_info e f s).1
unfolding update_chosen_info
update_chosen_info-MovesIds v e f s = ground arith

count_accept-MovesIds :
    (v : ℕ) (cfg : Configure) (rsp : PaxosMsg) (done : Bool) (s : InstanceState)
    → MovesIds v s (count_accept cfg rsp done s).state
unfolding count_accept
count_accept-MovesIds v cfg rsp done s =
    let s1 = record s { valid_rsp_count = u8 (s.valid_rsp_count + 1) } in
    elim (Bool-cases (leb (majority cfg) s1.valid_rsp_count)) [
      | inl e ↦ rw e (update_chosen_info-MovesIds v rsp.proposal.pentry rsp.proposal.proposer s1)
      | inr e ↦ rw e (refl, inl refl)
    ]

judge_accepted-MovesIds :
    (cfg : Configure) (rsp req : PaxosMsg) (s : InstanceState)
    → MovesIds rsp.proposal.pid s (judge_accepted cfg rsp req s).state
unfolding judge_accepted update_prepare_id copy_meta
judge_accepted-MovesIds cfg rsp req s = elim (Bool-cases (not (rsp.type == MsgType.accept_rsp))) [
  | inl e ↦ rw e (refl, inl refl)
  | inr e ↦ rw e (elim (Bool-cases (not (is_zero rsp.errcode))) [
    | inl f ↦ rw f (refl, inl refl)
    | inr f ↦ rw f (elim (Bool-cases (not (rsp.proposal.status == PaxosState.accepted))) [
      | inl g ↦ rw g (refl, inl refl)
      | inr g ↦ rw g (elim (Bool-cases (not (rsp.proposal.pid == req.proposal.pid))) [
        | inl k ↦ rw k (refl, inr (inl refl))
        | inr k ↦ rw k (elim (Bool-cases (not (rsp.proposal.value_id == req.proposal.value_id))) [
          | inl m ↦ rw m (refl, inl refl)
          | inr m ↦ rw m (count_accept-MovesIds rsp.proposal.pid cfg rsp _ _)
        ])
      ])
    ])
  ])
]

finish_prepare-KeepsIds : (l : Local) → KeepsIds l.state (finish_prepare l).state
unfolding finish_prepare set_value set_value_once
finish_prepare-KeepsIds l = ground arith

finish_accept-KeepsIds : (l : Local) → KeepsIds l.state (finish_accept l).state
unfolding finish_accept set_value_once set_value
finish_accept-KeepsIds l = ground arith

handle_prepare_rsp-MovesIds :
    (cfg : Configure) (rsp : PaxosMsg) (s : InstanceState)
    → MovesIds rsp.proposal.pid s (handle_prepare_rsp cfg rsp s).state
handle_prepare_rsp-MovesIds cfg rsp s = elim (handle_prepare_rsp_cases cfg rsp s) [
  | inl e ↦ rw e (refl, inl refl)
  | inr (req, _, e) ↦ rw e (
      let m = judge_promise-MovesIds cfg rsp req s in
      let k = finish_prepare-KeepsIds (judge_promise cfg rsp req s) in rw (k.0, k.1) m)
]

handle_accept_rsp-MovesIds :
    (cfg : Configure) (rsp : PaxosMsg) (s : InstanceState)
    → MovesIds rsp.proposal.pid s (handle_accept_rsp cfg rsp s).state
handle_accept_rsp-MovesIds cfg rsp s = elim (handle_accept_rsp_cases cfg rsp s) [
  | inl e ↦ rw e (refl, inl refl)
  | inr (req, _, e) ↦ rw e (
      let m = judge_accepted-MovesIds cfg rsp req s in
      let k = finish_accept-KeepsIds (judge_accepted cfg rsp req s) in rw (k.0, k.1) m)
]

pub respond-MovesIds :
    (cfg : Configure) (term : ℕ) (m : PaxosMsg) (s : InstanceState)
    → MovesIds m.proposal.pid s (respond cfg term (some m) s).state
respond-MovesIds cfg term m s = elim (respond_cases cfg term m s) [
  | inl e ↦ rw e (refl, inl refl)
  | inr o ↦ elim o [
    | inl (_, e) ↦ rw e (handle_prepare_rsp-MovesIds cfg m s)
    | inr (_, e) ↦ rw e (handle_accept_rsp-MovesIds cfg m s)
  ]
]

pub expired-KeepsIds :
    (cfg : Configure) (term : ℕ) (s : InstanceState) → KeepsIds s (respond cfg term none s).state
unfolding respond expire set_value_once set_value
expired-KeepsIds cfg term s = ground arith

-- A request takes an id or none.
pub asked_ids :
    (cfg : Configure) (opaque : ℕ) (val : List ℕ) (i : ℕ) (s : InstanceState)
    → ((propose_async cfg opaque val i s).state.proposer_id ≡ s.proposer_id)
      × (((propose_async cfg opaque val i s).state.ig ≡ s.ig)
          ⊎ ((propose_async cfg opaque val i s).state.ig ≡ (get_and_inc s.ig).1))
unfolding propose_async setup_wait_state setup_phase alloc_paxos_msg draw_pid
asked_ids cfg opaque val i s = ground arith
