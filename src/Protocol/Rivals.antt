-- ===== src/Protocol/Rivals.antt =====
-- Proposers of different servers, from their creation to a value that is declared chosen.
use Prim.Native.Nat.{bit_or, bit_or-bitwise, digits, max}
use quarrel.Prelude.{
  ℕ, zero, suc, ◌/◌, ◌≤◌, ◌<◌, ◌≡◌, ◌≢◌, ◌⊎◌, inl, inr, refl, sym, ◌∙◌, ap, subst, List, Option,
  none, some, Bool, true, false, ◌==◌, if◌then◌else◌, length, get_elem?, arith,
}
use quarrel.Prelude.Words.{u32}
use quarrel.Config.{Configure}
use quarrel.Ptype.{PaxosMsg}
use quarrel.Ptype.PaxosState
use quarrel.Ptype.MsgType
use quarrel.Plog.EntryMng.{Storage}
use quarrel.IdGen.{get_and_inc}
use quarrel.Proposer.State.{
  InstanceState, Outcome, phase, setup_wait_state, setup_phase, as_accept_req,
}
use quarrel.Proposer.Propose.{propose_async, alloc_paxos_msg, draw_pid}
use quarrel.Proposer.Create.{new_proposer}
use quarrel.Proposer.Respond.Quorum.{Waits}
use quarrel.Proposer.Route.{Proposer}
use quarrel.Proposer.Route.Laws.{Event, happen_all}
use quarrel.Proposer.Route.Quorum.{broadcasts}
use quarrel.Proposer.Route.Ballot.{declares}
use quarrel.Proposer.Ids.Apart.{HasRoom, happen_all-apart}
use quarrel.Protocol.Agreement.{Replica, AllReady}
use quarrel.Protocol.Delivery.{Delivers, Declared, Declared-once}

or_digits_none : (n a : ℕ) → a ≤ n → digits (λ b. b) max n a 0 ≡ a
or_digits_none zero a h = omega arith
or_digits_none (suc n) zero h = refl
or_digits_none (suc n) (suc a) h = omega (arith, or_digits_none n (suc a / 2) (omega arith))

-- No cookie leaves the id as it is.
no_cookie : (a : ℕ) → bit_or a 0 ≡ a
no_cookie a = bit_or-bitwise a 0 ∙ or_digits_none a a (omega arith)

-- The message of a new proposal.
abbrev asking : Configure → ℕ → List ℕ → ℕ → InstanceState → PaxosMsg
asking cfg opaque val i s =
    let blank = (alloc_paxos_msg cfg i opaque (u32 (length val)) s).0 in
    record blank { proposal = record blank.proposal { payload = val } }

one_of_two :
    (b : Bool) (x y : Outcome)
    → ((if b then x else y).state ≡ x.state) ⊎ ((if b then x else y).state ≡ y.state)
one_of_two true x y = inl refl
one_of_two false x y = inr refl

-- The state of an idle instance after a request: it prepares, or it accepts at once.
abbrev Begins : Configure → ℕ → List ℕ → ℕ → InstanceState → Type 0
Begins cfg opaque val i s =
    let s' = (alloc_paxos_msg cfg i opaque (u32 (length val)) s).1 in
    let pm = asking cfg opaque val i s in
    let o = propose_async cfg opaque val i s in
    (o.state ≡ setup_wait_state PaxosState.preparing pm s')
    ⊎ (o.state ≡ setup_wait_state PaxosState.accepting (as_accept_req cfg s' pm) s')

propose_async-Begins :
    (cfg : Configure) (opaque : ℕ) (val : List ℕ) (i : ℕ) (s : InstanceState)
    → s.req ≡ none
    → Begins cfg opaque val i s
unfolding propose_async
propose_async-Begins cfg opaque val i s idle =
    subst (Begins cfg opaque val i) (ap (λ (r : Option PaxosMsg). record s { req = r }) (sym idle))
      (one_of_two _ _ _)

asking-pid :
    (cfg : Configure) (opaque : ℕ) (val : List ℕ) (i : ℕ) (s : InstanceState)
    → cfg.pid_cookie ≡ 0
    → 0 < u32 (length val)
    → (asking cfg opaque val i s).proposal.pid ≡ s.ig.id
unfolding alloc_paxos_msg draw_pid get_and_inc
asking-pid cfg opaque val i s plain filled =
    let some_ : (u32 (length val) == 0) ≡ false = ground arith in
    rw (alloc_paxos_msg, some_) (ap (bit_or s.ig.id) plain ∙ no_cookie s.ig.id)

-- A value that is not empty draws the next id, where no cookie is put over it.
propose_async-Waits :
    (cfg : Configure) (opaque : ℕ) (val : List ℕ) (i : ℕ) (s : InstanceState)
    → cfg.pid_cookie ≡ 0
    → 0 < u32 (length val)
    → s.req ≡ none
    → let s' = (propose_async cfg opaque val i s).state in
      phase s'.state ≡ PaxosState.preparing → Waits s.ig.id 0 s'
unfolding setup_wait_state setup_phase
propose_async-Waits cfg opaque val i s plain filled idle ph =
    elim (propose_async-Begins cfg opaque val i s idle) [
      | inl e ↦ (
        (
          asking cfg opaque val i s,
          ap (λ (x : InstanceState). x.req) e,
          asking-pid cfg opaque val i s plain filled,
        ),
        ph,
        omega (arith, ap (λ (x : InstanceState). x.valid_rsp_count) e),
      )
      | inr e ↦ absurd (omega (arith, ph, ap (λ (x : InstanceState). x.state) e))
    ]

-- A server with the settings `cfg` makes its proposer, which handles any requests, responses and
-- timeouts of the instance `i`; then a client asks for a value, the instance prepares with its next
-- id, gets answers of the acceptors, and broadcasts that a value is chosen for the entry `j`.
pub record Campaign {D : Type 0} (st : Storage D) (acfg cfg : Configure) (i j : ℕ)
    (rs : List (Replica D)) : Type 0 where
  pub now : ℕ → ℕ
  pub proposer : Proposer
  pub created : new_proposer cfg now ≡ some proposer
  pub first : InstanceState
  pub is_first : get_elem? proposer.states i ≡ some first
  pub events : List Event
  pub room : HasRoom cfg events first
  pub idle : (happen_all cfg events first).req ≡ none
  pub opaque : ℕ
  pub val : List ℕ
  pub filled : 0 < u32 (length val)
  pub prepares :
      phase (propose_async cfg opaque val i (happen_all cfg events first)).state.state
      ≡ PaxosState.preparing
  pub responses : List (ℕ × PaxosMsg)
  pub prepared :
      Delivers st acfg MsgType.prepare_req MsgType.prepare_rsp i j
        (happen_all cfg events first).ig.id
        rs
        responses
  pub answered :
      Delivers st acfg MsgType.accept_req MsgType.accept_rsp i j
        (happen_all cfg events first).ig.id
        rs
        responses
  pub chosen :
      declares (
        broadcasts cfg responses
          (propose_async cfg opaque val i (happen_all cfg events first)).state)
      ≡ true

-- The id that a campaign numbers its proposal with.
abbrev pub ballot_of :
    {D : Type 0} {st : Storage D} {acfg cfg : Configure} {i j : ℕ} {rs : List (Replica D)}
    → Campaign st acfg cfg i j rs
    → ℕ
ballot_of {cfg} c = (happen_all cfg c.events c.first).ig.id

module _ {D : Type 0} (st : Storage D) (acfg : Configure) (i j : ℕ) (rs : List (Replica D)) where
  Campaign-Declared :
      (cfg : Configure)
      → cfg.pid_cookie ≡ 0
      → (c : Campaign st acfg cfg i j rs) → Declared st acfg cfg i j (ballot_of c) rs
  Campaign-Declared cfg plain c = record {
    state = (propose_async cfg c.opaque c.val i (happen_all cfg c.events c.first)).state;
    responses = c.responses;
    waits =
        propose_async-Waits cfg c.opaque c.val i (happen_all cfg c.events c.first) plain c.filled
          c.idle c.prepares;
    prepared = c.prepared;
    answered = c.answered;
    chosen = c.chosen;
  }

  -- Two servers with different ids below their common number of proposers, with no cookie and the
  -- same number of acceptors in their settings, and a cluster of that many acceptors, each with valid
  -- caches that have room for all its requests, whatever these are. If the one server has, in a run
  -- from its start, proposed a value that is not empty with a prepare phase, and declared a value
  -- chosen for an entry of an instance on the answers of these acceptors, one of each at most in each
  -- phase, then the other has not in any run of its own, where in neither run an id comes within the
  -- number of proposers of 2 ^ 64.
  pub rivals_apart :
      (cfg dfg : Configure) (n : ℕ)
      → 0 < n
      → length rs ≡ acfg.total_acceptor
      → cfg.total_acceptor ≡ acfg.total_acceptor
      → dfg.total_acceptor ≡ acfg.total_acceptor
      → cfg.total_proposer ≡ dfg.total_proposer
      → cfg.local.id < cfg.total_proposer
      → dfg.local.id < dfg.total_proposer
      → cfg.local.id ≢ dfg.local.id
      → cfg.pid_cookie ≡ 0
      → dfg.pid_cookie ≡ 0
      → AllReady n rs
      → Campaign st acfg cfg i j rs
      → ¬ Campaign st acfg dfg i j rs
  rivals_apart cfg dfg n pos size same same' pros lt lt' ne plain plain' r c d =
      happen_all-apart cfg dfg c.now d.now c.proposer d.proposer i c.first d.first c.events d.events
        pros lt lt' ne c.created d.created c.is_first d.is_first c.room d.room
        (Declared-once st acfg cfg dfg n pos i j (ballot_of c) (ballot_of d) rs size same same' r
          (Campaign-Declared cfg plain c) (Campaign-Declared dfg plain' d))
