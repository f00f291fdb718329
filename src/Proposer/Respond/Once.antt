-- ===== src/Proposer/Respond/Once.antt =====
-- How often a client's promise is given a code.
use quarrel.Prelude.{
  ℕ, ◌+◌, ◌≡◌, ◌⊎◌, inl, inr, refl, sym, ◌∙◌, ap, not, ◌==◌, ltb, [], none, some, Bool, true, false,
  ◌||◌, arith, length, if◌then◌else◌, Bool-cases, Option-cases,
}
use quarrel.Prelude.Words.{u8}
use quarrel.Prelude.Int.{is_zero}
use quarrel.Ptype.PaxosState
use quarrel.Ptype.MsgType
use quarrel.Config.{Configure}
use quarrel.Ptype.{Proposal, PaxosMsg}
use quarrel.Proposer.State.{
  InstanceState, is_returned, set_value, set_value_once, update_prepare_id, update_chosen_info,
  setup_phase,
}
use quarrel.Proposer.Respond.{
  Local, copy_meta, note_last_vote, start_accept, enter_accept, count_promise, judge_promise,
  finish_prepare, handle_prepare_rsp, count_accept, judge_accepted, finish_accept,
  handle_accept_rsp,
}

abbrev pub is_open : InstanceState → Bool
is_open s = elim s.req [ none ↦ false | some _ ↦ true ]

-- How many codes the promise of the last request must have been given.
abbrev pub due : InstanceState → ℕ
due s = if is_open s then if is_returned s.state then 1 else 0 else 1

abbrev pub IsServed : InstanceState → Type 0
IsServed s = length s.ret ≡ due s

-- What a handler has done at its label `out`.
record Quiet (s : InstanceState) (l : Local) : Type 0 where
  open_still : is_open l.state ≡ true
  same_ret : l.state.ret ≡ s.ret
  flag : is_returned l.state.state ≡ (is_returned s.state || l.first_got_lastv)
  fresh : l.first_got_lastv ≡ true → is_returned s.state ≡ false

update_chosen_info_keeps :
    (e f : ℕ) (s : InstanceState)
    → ((update_chosen_info e f s).1.req ≡ s.req)
      × ((update_chosen_info e f s).1.ret ≡ s.ret)
      × ((update_chosen_info e f s).1.state ≡ s.state)
unfolding update_chosen_info
update_chosen_info_keeps e f s = ground arith

note_last_vote-Quiet :
    (rsp : PaxosMsg) (req : Proposal) (s : InstanceState)
    → ((note_last_vote rsp req s).1.req ≡ s.req)
      × ((note_last_vote rsp req s).1.ret ≡ s.ret)
      × (is_returned (note_last_vote rsp req s).1.state
          ≡ (is_returned s.state || (note_last_vote rsp req s).0))
      × ((note_last_vote rsp req s).0 ≡ true → is_returned s.state ≡ false)
unfolding note_last_vote
note_last_vote-Quiet rsp req s = ground arith

start_accept_keeps :
    (cfg : Configure) (s : InstanceState)
    → is_open s ≡ true
    → (is_open (start_accept cfg s).1 ≡ true)
      × ((start_accept cfg s).1.ret ≡ s.ret)
      × ((start_accept cfg s).1.state ≡ s.state)
unfolding start_accept
start_accept_keeps cfg s h = ground arith

enter_accept-Quiet :
    (cfg : Configure) (rsp : Proposal) (first : Bool) (ret : _) (s : InstanceState)
    → is_open s ≡ true
    → (is_open (enter_accept cfg rsp first ret s).state ≡ true)
      × ((enter_accept cfg rsp first ret s).state.ret ≡ s.ret)
      × (is_returned (enter_accept cfg rsp first ret s).state.state ≡ is_returned s.state)
      × ((enter_accept cfg rsp first ret s).first_got_lastv ≡ first)
unfolding enter_accept setup_phase
enter_accept-Quiet cfg rsp first ret s h = let k = start_accept_keeps cfg s h in ground arith

-- The state when the response has been counted.
abbrev pub counted : PaxosMsg → Proposal → InstanceState → InstanceState
counted rsp req s = record (note_last_vote rsp req s).1 {
  valid_rsp_count = u8 ((note_last_vote rsp req s).1.valid_rsp_count + 1);
}

pub count_promise_cases :
    (cfg : Configure) (rsp : PaxosMsg) (req : Proposal) (done : Bool) (s : InstanceState)
    → (count_promise cfg rsp req done s
        ≡ enter_accept cfg rsp.proposal
            (note_last_vote rsp req s).0
            rsp.errcode
            (counted rsp req s))
      ⊎ (count_promise cfg rsp req done s ≡ record {
        state = counted rsp req s;
        sent = [];
        ret = rsp.errcode;
        done = done;
        first_got_lastv = (note_last_vote rsp req s).0;
      })
unfolding count_promise
count_promise_cases cfg rsp req done s = ground arith

count_promise-Quiet :
    (cfg : Configure) (rsp : PaxosMsg) (req : Proposal) (done : Bool) (s : InstanceState)
    → is_open s ≡ true
    → Quiet s (count_promise cfg rsp req done s)
count_promise-Quiet cfg rsp req done s h =
    let (a, b, c, d) = note_last_vote-Quiet rsp req s in
    let o : is_open (counted rsp req s) ≡ true = rw a h in
    let (x, y, z, w) =
      enter_accept-Quiet cfg rsp.proposal (note_last_vote rsp req s).0 rsp.errcode
        (counted rsp req s) o in
    elim (count_promise_cases cfg rsp req done s) [
      | inl e ↦ rw e record {
        open_still = x;
        same_ret = y ∙ b;
        flag = z ∙ c ∙ ap (λ (f : Bool). is_returned s.state || f) (sym w);
        fresh = λ f. d (sym w ∙ f);
      }
      | inr e ↦ rw e record { open_still = o; same_ret = b; flag = c; fresh = d }
    ]

-- A local state that has told the client nothing and found no vote.
abbrev Plain : InstanceState → Local → Type 0
Plain s l =
    (is_open l.state ≡ true)
    × (l.state.ret ≡ s.ret)
    × (l.state.state ≡ s.state)
    × (l.first_got_lastv ≡ false)

Plain-Quiet : (s : InstanceState) (l : Local) → Plain s l → Quiet s l
Plain-Quiet s l (a, b, c, d) = record {
  open_still = a;
  same_ret = b;
  flag = ground arith;
  fresh = λ e. ground arith;
}

judge_promise_cases :
    (cfg : Configure) (rsp req : PaxosMsg) (s : InstanceState)
    → is_open s ≡ true
    → Plain s (judge_promise cfg rsp req s)
      ⊎ ((done : Bool) × (judge_promise cfg rsp req s
            ≡ count_promise cfg rsp req.proposal done
                (copy_meta req rsp.proposal (record s { rsp_count = u8 (s.rsp_count + 1) }))))
unfolding judge_promise update_prepare_id copy_meta
judge_promise_cases cfg rsp req s h = elim (Bool-cases (not (rsp.type == MsgType.prepare_rsp))) [
  | inl e ↦ rw e (inl (h, refl, refl, refl))
  | inr e ↦ rw e (elim (Bool-cases (not (is_zero rsp.errcode))) [
    | inl f ↦ rw f (inl (h, refl, refl, refl))
    | inr f ↦ rw f (elim (Bool-cases (not (rsp.proposal.status == PaxosState.promised))) [
      | inl g ↦ rw g (inl (h, refl, refl, refl))
      | inr g ↦ rw g (elim (Bool-cases (ltb req.proposal.pid rsp.proposal.pid)) [
        | inl k ↦ rw k (inl (refl, refl, refl, refl))
        | inr k ↦ rw k (inr (_, refl))
      ])
    ])
  ])
]

finish_prepare-IsServed :
    (s : InstanceState) (l : Local)
    → IsServed s
    → is_open s ≡ true
    → Quiet s l
    → IsServed (finish_prepare l).state
unfolding finish_prepare set_value set_value_once
finish_prepare-IsServed s l h o q =
    let a = q.open_still in
    let b = ap length q.same_ret in
    let c = q.flag in
    let d = q.fresh in
    elim (Bool-cases l.first_got_lastv) [
      | inl e ↦
          let d' = d e in
          elim (Bool-cases l.done) [
            | inl f ↦ rw (e, f) (ground arith)
            | inr f ↦ rw (e, f) (ground arith)
          ]
      | inr e ↦ elim (Bool-cases l.done) [
        | inl f ↦ rw (e, f) (ground arith)
        | inr f ↦ rw (e, f) (ground arith)
      ]
    ]

judge_promise-Quiet :
    (cfg : Configure) (rsp req : PaxosMsg) (s : InstanceState)
    → is_open s ≡ true
    → Quiet s (judge_promise cfg rsp req s)
unfolding copy_meta
judge_promise-Quiet cfg rsp req s h = elim (judge_promise_cases cfg rsp req s h) [
  | inl p ↦ Plain-Quiet s _ p
  | inr (done, e) ↦
      let s' = copy_meta req rsp.proposal (record s { rsp_count = u8 (s.rsp_count + 1) }) in
      let q = count_promise-Quiet cfg rsp req.proposal done s' refl in
      rw e
        record { open_still = q.open_still; same_ret = q.same_ret; flag = q.flag; fresh = q.fresh }
]

judge_accepted-Plain :
    (cfg : Configure) (rsp req : PaxosMsg) (s : InstanceState)
    → is_open s ≡ true
    → Plain s (judge_accepted cfg rsp req s)
unfolding judge_accepted count_accept update_prepare_id copy_meta update_chosen_info
judge_accepted-Plain cfg rsp req s h = ground arith

finish_accept-IsServed :
    (s : InstanceState) (l : Local)
    → IsServed s
    → is_open s ≡ true
    → Plain s l
    → IsServed (finish_accept l).state
unfolding finish_accept set_value set_value_once
finish_accept-IsServed s l h o (a, b, c, d) =
    let b' = ap length b in
    elim (Bool-cases l.done) [ inl f ↦ rw f (ground arith) | inr f ↦ rw f (ground arith) ]

pub handle_prepare_rsp_cases :
    (cfg : Configure) (rsp : PaxosMsg) (s : InstanceState)
    → ((handle_prepare_rsp cfg rsp s).state ≡ s)
      ⊎ ((req : PaxosMsg) × (is_open s ≡ true)
          × (handle_prepare_rsp cfg rsp s ≡ finish_prepare (judge_promise cfg rsp req s)))
unfolding handle_prepare_rsp
handle_prepare_rsp_cases cfg rsp s = elim (Option-cases s.req) [
  | inl e ↦ inl (rw e refl)
  | inr (req, e) ↦ inr (req, rw e refl, rw e refl)
]

pub handle_prepare_rsp-IsServed :
    (cfg : Configure) (rsp : PaxosMsg) (s : InstanceState)
    → IsServed s
    → IsServed (handle_prepare_rsp cfg rsp s).state
handle_prepare_rsp-IsServed cfg rsp s h = elim (handle_prepare_rsp_cases cfg rsp s) [
  | inl e ↦ rw e h
  | inr (req, o, e) ↦ rw e (finish_prepare-IsServed s _ h o (judge_promise-Quiet cfg rsp req s o))
]

pub handle_accept_rsp_cases :
    (cfg : Configure) (rsp : PaxosMsg) (s : InstanceState)
    → ((handle_accept_rsp cfg rsp s).state ≡ s)
      ⊎ ((req : PaxosMsg) × (is_open s ≡ true)
          × (handle_accept_rsp cfg rsp s ≡ finish_accept (judge_accepted cfg rsp req s)))
unfolding handle_accept_rsp
handle_accept_rsp_cases cfg rsp s = elim (Option-cases s.req) [
  | inl e ↦ inl (rw e refl)
  | inr (req, e) ↦ inr (req, rw e refl, rw e refl)
]

pub handle_accept_rsp-IsServed :
    (cfg : Configure) (rsp : PaxosMsg) (s : InstanceState)
    → IsServed s
    → IsServed (handle_accept_rsp cfg rsp s).state
handle_accept_rsp-IsServed cfg rsp s h = elim (handle_accept_rsp_cases cfg rsp s) [
  | inl e ↦ rw e h
  | inr (req, o, e) ↦ rw e (finish_accept-IsServed s _ h o (judge_accepted-Plain cfg rsp req s o))
]
