-- ===== src/Protocol/History.antt =====
-- The requests that one acceptor handles, with its answers.
use quarrel.Prelude.{
  ℕ, ◌≡◌, refl, ap, List, [], ◌∷◌, Option, none, some, Bool, true, false, ◌&&◌, ◌||◌, ◌==◌, arith,
}
use quarrel.Prelude.Int.{is_zero}
use quarrel.Config.{Configure}
use quarrel.Ptype.{Proposal, PaxosMsg}
use quarrel.Ptype.PaxosState
use quarrel.Ptype.MsgType
use quarrel.Plog.EntryMng.{Storage}
use quarrel.Acceptor.Defs.{
  Acceptor, PaxosRequest, prepare_rsp, handle_prepare_req, handle_accept_req, dispatch,
  do_handle_msg,
}
use quarrel.Proposer.Respond.Quorum.{is_promise}

-- A request and the answer that its callback was called with, if it was.
abbrev pub Exchange : Type 0
Exchange = PaxosMsg × Option (ℕ × PaxosMsg)

-- The request is of this type, and for this entry under this ballot.
abbrev pub is_for : ℕ → ℕ → ℕ → ℕ → PaxosMsg → Bool
is_for type i j b m =
    (m.type == type) && (m.proposal.pinst == i) && (m.proposal.pentry == j) && (m.proposal.pid == b)

-- The acceptor promised the ballot, in the eyes of a proposer.
abbrev pub promises : ℕ → ℕ → ℕ → Exchange → Bool
promises i j b (m, none) = false
promises i j b (m, some (cb, rsp)) = is_for MsgType.prepare_req i j b m && is_promise b rsp

-- A response that tells of an acceptance, whatever the value.
abbrev pub says_accepted : PaxosMsg → Bool
says_accepted m =
    (m.type == MsgType.accept_rsp)
    && is_zero m.errcode
    && (m.proposal.status == PaxosState.accepted)

-- The acceptor answered that it accepted the ballot.
abbrev pub accepts : ℕ → ℕ → ℕ → Exchange → Bool
accepts i j b (m, none) = false
accepts i j b (m, some (cb, rsp)) = is_for MsgType.accept_req i j b m && says_accepted rsp

abbrev pub any : (Exchange → Bool) → List Exchange → Bool
any f [] = false
any f (x ∷ xs) = f x || any f xs

pub promises_for :
    (i j b : ℕ) (m : PaxosMsg) (o : Option (ℕ × PaxosMsg))
    → promises i j b (m, o) ≡ true
    → is_for MsgType.prepare_req i j b m ≡ true
promises_for i j b m none h = cc
promises_for i j b m (some (cb, rsp)) h = ground arith

pub accepts_for :
    (i j b : ℕ) (m : PaxosMsg) (o : Option (ℕ × PaxosMsg))
    → accepts i j b (m, o) ≡ true
    → is_for MsgType.accept_req i j b m ≡ true
accepts_for i j b m none h = cc
accepts_for i j b m (some (cb, rsp)) h = ground arith

-- A request is of one type.
pub accepts-promises :
    (i j p b : ℕ) (m : PaxosMsg) (o : Option (ℕ × PaxosMsg))
    → accepts i j p (m, o) ≡ true
    → promises i j b (m, o) ≡ false
accepts-promises i j p b m none h = refl
accepts-promises i j p b m (some (cb, rsp)) h = ground arith

pub is_for_lem :
    (type i j b : ℕ) (m : PaxosMsg)
    → is_for type i j b m ≡ true
    → ((m.type == type) ≡ true)
      × (m.proposal.pinst ≡ i)
      × (m.proposal.pentry ≡ j)
      × (m.proposal.pid ≡ b)
is_for_lem type i j b m h = ground arith

-- The answer of a handler as the callback gets it.
abbrev pub reply : Configure → PaxosRequest → ℕ → PaxosMsg → PaxosMsg
reply cfg req type rsp = record rsp {
  type = type;
  from = cfg.local.id;
  version = req.msg.version;
  magic = req.msg.magic;
  reqid = req.msg.reqid;
}

pub promises_told :
    (i j b : ℕ) (m : PaxosMsg) (cb : ℕ) (cfg : Configure) (req : PaxosRequest) (rsp : PaxosMsg)
    → promises i j b (m, some (cb, reply cfg req MsgType.prepare_rsp rsp)) ≡ true
    → (is_zero rsp.errcode ≡ true)
      × (rsp.proposal.status ≡ PaxosState.promised)
      × (is_promise b (record rsp { type = MsgType.prepare_rsp }) ≡ true)
promises_told i j b m cb cfg req rsp h = ground arith

pub accepts_told :
    (i j b : ℕ) (m : PaxosMsg) (cb : ℕ) (cfg : Configure) (req : PaxosRequest) (rsp : PaxosMsg)
    → accepts i j b (m, some (cb, reply cfg req MsgType.accept_rsp rsp)) ≡ true
    → (is_zero rsp.errcode ≡ true) × (rsp.proposal.status ≡ PaxosState.accepted)
accepts_told i j b m cb cfg req rsp h = ground arith

pub retyped :
    (b : ℕ) (rsp : PaxosMsg)
    → rsp.type ≡ MsgType.prepare_rsp
    → is_promise b (record rsp { type = MsgType.prepare_rsp }) ≡ true
    → is_promise b rsp ≡ false
    → ⊥
retyped b rsp e h g = ground arith

module _ {D : Type 0} (st : Storage D) where
  -- The requests with their answers, as one worker handles them.
  unfoldable pub history : Configure → List PaxosRequest → Acceptor D → List Exchange
  history cfg [] a = []
  history cfg (req ∷ reqs) a =
      let (rsp, a') = do_handle_msg st cfg req a in (req.msg, rsp) ∷ history cfg reqs a'

  pub handle_prepare_req-type :
      (pp : Proposal) (a : Acceptor D) → (handle_prepare_req st pp a).0.type ≡ MsgType.prepare_rsp
  unfolding handle_prepare_req prepare_rsp
  handle_prepare_req-type pp a = ground arith

  dispatch_prepare :
      (m : PaxosMsg) (a : Acceptor D)
      → (m.type == MsgType.prepare_req) ≡ true
      → dispatch st m a ≡ (
        some (record (handle_prepare_req st m.proposal a).0 { type = MsgType.prepare_rsp }),
        (handle_prepare_req st m.proposal a).1,
      )
  unfolding dispatch
  dispatch_prepare m a h = ground arith

  pub handle_prepare :
      (cfg : Configure) (req : PaxosRequest) (a : Acceptor D)
      → (req.msg.type == MsgType.prepare_req) ≡ true
      → do_handle_msg st cfg req a ≡ (
        some (
          req.cb,
          reply cfg req MsgType.prepare_rsp (handle_prepare_req st req.msg.proposal a).0,
        ),
        (handle_prepare_req st req.msg.proposal a).1,
      )
  unfolding do_handle_msg
  handle_prepare cfg req a h =
      let e = dispatch_prepare req.msg a h in
      let rsp = (handle_prepare_req st req.msg.proposal a).0 in
      rw (e, do_handle_msg)
        (ap
          (λ (d : Option PaxosMsg × Acceptor D).
            (some (req.cb, reply cfg req MsgType.prepare_rsp rsp), d.1))
          e)

  dispatch_accept :
      (m : PaxosMsg) (a : Acceptor D)
      → (m.type == MsgType.accept_req) ≡ true
      → dispatch st m a ≡ (
        some (record (handle_accept_req st m.proposal a).0 { type = MsgType.accept_rsp }),
        (handle_accept_req st m.proposal a).1,
      )
  unfolding dispatch
  dispatch_accept m a h = ground arith

  pub handle_accept :
      (cfg : Configure) (req : PaxosRequest) (a : Acceptor D)
      → (req.msg.type == MsgType.accept_req) ≡ true
      → do_handle_msg st cfg req a ≡ (
        some (req.cb, reply cfg req MsgType.accept_rsp (handle_accept_req st req.msg.proposal a).0),
        (handle_accept_req st req.msg.proposal a).1,
      )
  unfolding do_handle_msg
  handle_accept cfg req a h =
      let e = dispatch_accept req.msg a h in
      let rsp = (handle_accept_req st req.msg.proposal a).0 in
      rw (e, do_handle_msg)
        (ap
          (λ (d : Option PaxosMsg × Acceptor D).
            (some (req.cb, reply cfg req MsgType.accept_rsp rsp), d.1))
          e)
