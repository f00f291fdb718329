-- ===== src/Protocol/Delivery.antt =====
-- From the acceptors to the proposers: which answers a proposer gets, and what two proposers that
-- both declare a value chosen have in common.
use quarrel.Prelude.{
  ℕ, ◌+◌, ◌/◌, ◌≤◌, ◌<◌, ◌≡◌, ◌⊎◌, inl, inr, refl, ap, List, [], ◌∷◌, ◌++◌, length, some, Bool,
  true, false, ◌==◌, arith, Bool-cases,
}
use quarrel.Config.{Configure}
use quarrel.Ptype.{Proposal, PaxosMsg}
use quarrel.Ptype.MsgType
use quarrel.Plog.EntryMng.{Storage}
use quarrel.Proposer.State.{InstanceState, majority}
use quarrel.Proposer.Respond.Quorum.{Waits, is_promise, vote}
use quarrel.Proposer.Respond.Chosen.{is_accept}
use quarrel.Proposer.Route.Quorum as Promises
use quarrel.Proposer.Route.Quorum.{broadcasts}
use quarrel.Proposer.Route.Chosen as Accepts
use quarrel.Proposer.Route.Ballot.{declares, declared_needs_quorums}
use quarrel.Protocol.History.{Exchange, is_for, any, promises, accepts, says_accepted}
use quarrel.Protocol.Agreement.{Replica, AllReady, exchanges, accepted_by, promised_by, one_ballot}

-- Among the exchanges is a request of this type, for this entry under this ballot, with this answer.
abbrev pub Answers : ℕ → ℕ → ℕ → ℕ → PaxosMsg → List Exchange → Type 0
Answers type i j b m [] = ⊥
Answers type i j b m (x ∷ xs) =
    ((q : PaxosMsg) × (cb : ℕ) × (x ≡ (q, some (cb, m))) × (is_for type i j b q ≡ true))
    ⊎ Answers type i j b m xs

-- The responses that a proposer gets to a request of the type `type`: in any order, one of each
-- acceptor at most, since a request is sent to each of them once and its callback is called once;
-- among any messages that are not of the type `told` of the answers.
pub data Delivers {D : Type 0} (st : Storage D) (cfg : Configure) (type told i j b : ℕ)
    : List (Replica D) → List (ℕ × PaxosMsg) → Type 0 where
  none_left : Delivers st cfg type told i j b [] []
  lost :
      {r : Replica D} {rs : List (Replica D)} {ms : List (ℕ × PaxosMsg)}
      → Delivers st cfg type told i j b rs ms
      → Delivers st cfg type told i j b (r ∷ rs) ms
  other :
      {rs : List (Replica D)} (xs ys : List (ℕ × PaxosMsg)) (term : ℕ) (m : PaxosMsg)
      → (m.type == told) ≡ false
      → Delivers st cfg type told i j b rs (xs ++ ys)
      → Delivers st cfg type told i j b rs (xs ++ (term, m) ∷ ys)
  heard :
      {r : Replica D} {rs : List (Replica D)} (xs ys : List (ℕ × PaxosMsg)) (term : ℕ)
      (m : PaxosMsg)
      → Answers type i j b m (exchanges st cfg r)
      → Delivers st cfg type told i j b rs (xs ++ ys)
      → Delivers st cfg type told i j b (r ∷ rs) (xs ++ (term, m) ∷ ys)

promises_insert :
    (b term : ℕ) (m : PaxosMsg) (xs ys : List (ℕ × PaxosMsg))
    → Promises.promises b (xs ++ (term, m) ∷ ys)
      ≡ vote (is_promise b m) + Promises.promises b (xs ++ ys)
promises_insert b term m [] ys = refl
promises_insert b term m ((t, x) ∷ xs) ys = omega (arith, promises_insert b term m xs ys)

accepts_insert :
    (r : Proposal) (term : ℕ) (m : PaxosMsg) (xs ys : List (ℕ × PaxosMsg))
    → Accepts.accepts r (xs ++ (term, m) ∷ ys) ≡ vote (is_accept r m) + Accepts.accepts r (xs ++ ys)
accepts_insert r term m [] ys = refl
accepts_insert r term m ((t, x) ∷ xs) ys = omega (arith, accepts_insert r term m xs ys)

any_later :
    (f : Exchange → Bool) (x : Exchange) (xs : List Exchange)
    → any f xs ≡ true
    → any f (x ∷ xs) ≡ true
any_later f x xs h = ground arith

Answers-promise :
    (i j b : ℕ) (m : PaxosMsg) (xs : List Exchange)
    → Answers MsgType.prepare_req i j b m xs
    → is_promise b m ≡ true
    → any (promises i j b) xs ≡ true
Answers-promise i j b m [] never v = elim never [ ]
Answers-promise i j b m (x ∷ xs) (inl (q, cb, e, f)) v = rw (e, f, v) refl
Answers-promise i j b m (x ∷ xs) (inr later) v =
    any_later (promises i j b) x xs (Answers-promise i j b m xs later v)

Answers-accept :
    (i j b : ℕ) (m : PaxosMsg) (r : Proposal) (xs : List Exchange)
    → Answers MsgType.accept_req i j b m xs
    → is_accept r m ≡ true
    → any (accepts i j b) xs ≡ true
Answers-accept i j b m r [] never v = elim never [ ]
Answers-accept i j b m r (x ∷ xs) (inl (q, cb, e, f)) v =
    let told : says_accepted m ≡ true = ground arith in rw (e, f, told) refl
Answers-accept i j b m r (x ∷ xs) (inr later) v =
    any_later (accepts i j b) x xs (Answers-accept i j b m r xs later v)

module _ {D : Type 0} (st : Storage D) (cfg : Configure) (i j : ℕ) where
  Delivers-promises :
      (b : ℕ) {rs : List (Replica D)} {ms : List (ℕ × PaxosMsg)}
      → Delivers st cfg MsgType.prepare_req MsgType.prepare_rsp i j b rs ms
      → Promises.promises b ms ≤ promised_by st cfg i j b rs
  Delivers-promises b none_left = omega arith
  Delivers-promises b (lost d) = omega (arith, Delivers-promises b d)
  Delivers-promises b (other xs ys term m t d) =
      let no_ : is_promise b m ≡ false = rw t refl in
      rw (promises_insert b term m xs ys, no_) (omega (arith, Delivers-promises b d))
  Delivers-promises b (heard {r} xs ys term m a d) =
      let ih = Delivers-promises b d in
      rw (promises_insert b term m xs ys) (elim (Bool-cases (is_promise b m)) [
        | inl v ↦ rw (v, Answers-promise i j b m (exchanges st cfg r) a v) (omega arith)
        | inr v ↦ rw v (omega arith)
      ])

  Delivers-accepts :
      (b : ℕ) (v : Proposal) {rs : List (Replica D)} {ms : List (ℕ × PaxosMsg)}
      → Delivers st cfg MsgType.accept_req MsgType.accept_rsp i j b rs ms
      → Accepts.accepts v ms ≤ accepted_by st cfg i j b rs
  Delivers-accepts b v none_left = omega arith
  Delivers-accepts b v (lost d) = omega (arith, Delivers-accepts b v d)
  Delivers-accepts b v (other xs ys term m t d) =
      let no_ : is_accept v m ≡ false = rw t refl in
      rw (accepts_insert v term m xs ys, no_) (omega (arith, Delivers-accepts b v d))
  Delivers-accepts b v (heard {r} xs ys term m a d) =
      let ih = Delivers-accepts b v d in
      rw (accepts_insert v term m xs ys) (elim (Bool-cases (is_accept v m)) [
        | inl h ↦ rw (h, Answers-accept i j b m v (exchanges st cfg r) a h) (omega arith)
        | inr h ↦ rw h (omega arith)
      ])

-- A proposal under the ballot `b` that a proposer with the settings `cfg` carries through among
-- acceptors with the settings `acfg`: its instance waits for promises, gets answers of the acceptors
-- in both phases, and broadcasts that a value is chosen.
pub record Declared {D : Type 0} (st : Storage D) (acfg cfg : Configure) (i j b : ℕ)
    (rs : List (Replica D)) : Type 0 where
  pub state : InstanceState
  pub responses : List (ℕ × PaxosMsg)
  pub waits : Waits b 0 state
  pub prepared : Delivers st acfg MsgType.prepare_req MsgType.prepare_rsp i j b rs responses
  pub answered : Delivers st acfg MsgType.accept_req MsgType.accept_rsp i j b rs responses
  pub chosen : declares (broadcasts cfg responses state) ≡ true

module _ {D : Type 0} (st : Storage D) (acfg : Configure) where
  Declared-quorums :
      (cfg : Configure) (i j b : ℕ) (rs : List (Replica D))
      → cfg.total_acceptor ≡ acfg.total_acceptor
      → Declared st acfg cfg i j b rs
      → (majority acfg ≤ promised_by st acfg i j b rs)
        × (majority acfg ≤ accepted_by st acfg i j b rs)
  Declared-quorums cfg i j b rs same d =
      let (p, (v, _, a)) = declared_needs_quorums cfg d.responses b d.state d.waits d.chosen in
      let as_many = ap (λ (t : ℕ). t / 2 + 1) same in
      (
        omega (arith, as_many, Delivers-promises st acfg i j b d.prepared),
        omega (arith, as_many, Delivers-accepts st acfg i j b v d.answered),
      )

  -- Two proposers, of one process or of two, each carry a proposal for the same entry of the same
  -- instance through: each starts to wait for promises of its ballot, gets in any order the answers
  -- that the acceptors gave to its requests (one answer of each acceptor at most in each phase, some
  -- of them lost, and other messages between them), and broadcasts a value as chosen. If the
  -- acceptors are `total_acceptor_` in number, the same in all settings, each with valid caches that
  -- have room for all its requests, then the two ballots are the same, whatever other requests the
  -- acceptors handled.
  pub Declared-once :
      (cfg dfg : Configure) (n : ℕ) (pos : 0 < n) (i j p b : ℕ) (rs : List (Replica D))
      → length rs ≡ acfg.total_acceptor
      → cfg.total_acceptor ≡ acfg.total_acceptor
      → dfg.total_acceptor ≡ acfg.total_acceptor
      → AllReady n rs
      → Declared st acfg cfg i j p rs
      → Declared st acfg dfg i j b rs
      → p ≡ b
  Declared-once cfg dfg n pos i j p b rs size same same' r x y =
      let (pp, ap_) = Declared-quorums cfg i j p rs same x in
      let (pb, ab) = Declared-quorums dfg i j b rs same' y in
      one_ballot st acfg n pos i j p b rs size r pp ap_ pb ab
