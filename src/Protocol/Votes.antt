-- ===== src/Protocol/Votes.antt =====
-- What a request that was answered as promised, or as accepted, has done to the log.
use quarrel.Prelude.{
  ℕ, suc, ◌≤◌, ◌<◌, ◌≡◌, inl, inr, sym, subst, Option, some, true, false, arith, Bool-cases,
}
use quarrel.Config.{Configure}
use quarrel.Ptype.{Proposal, PaxosMsg}
use quarrel.Plog.Entry.{Entry}
use quarrel.Plog.EntryMng.{Storage}
use quarrel.Plog.PlogMng.{PlogMng}
use quarrel.Plog.Cache.Managers.{logged, IsReady}
use quarrel.Acceptor.Ballots.{ballot}
use quarrel.Acceptor.Promise.{handle_prepare_req_promised}
use quarrel.Acceptor.Accepted.{handle_accept_req_accepted}
use quarrel.Acceptor.Defs.{
  Acceptor, PaxosRequest, handle_prepare_req, handle_accept_req, do_handle_msg,
}
use quarrel.Protocol.{handle_prepare_req_accepted}
use quarrel.Protocol.History.{
  is_for, promises, accepts, is_for_lem, promises_for, accepts_for, promises_told, accepts_told,
  retyped, handle_prepare_req-type, handle_prepare, handle_accept,
}

module _ {D : Type 0} (st : Storage D) where
  module _ (cfg : Configure) (n : ℕ) (pos : 0 < n) (i j : ℕ) where
    -- The entry of a request, under the names of the entry.
    logged_for :
        (type b : ℕ) (m : PaxosMsg) (s : PlogMng D) (o : Option Entry)
        → is_for type i j b m ≡ true
        → logged m.proposal.pinst m.proposal.pentry s ≡ o
        → logged i j s ≡ o
    logged_for type b m s o h at =
        let (_, p, e, _) = is_for_lem type i j b m h in
        subst (λ q. logged q j s ≡ o) p (subst (λ q. logged m.proposal.pinst q s ≡ o) e at)

    for_logged :
        (type b : ℕ) (m : PaxosMsg) (s : PlogMng D) (o : Option Entry)
        → is_for type i j b m ≡ true
        → logged i j s ≡ o
        → logged m.proposal.pinst m.proposal.pentry s ≡ o
    for_logged type b m s o h at =
        let (_, p, e, _) = is_for_lem type i j b m h in
        subst (λ q. logged q m.proposal.pentry s ≡ o) (sym p)
          (subst (λ q. logged i q s ≡ o) (sym e) at)

    -- After a promise the entry is bound to the ballot.
    pub promised_now :
        (k b : ℕ) (req : PaxosRequest) (a : Acceptor D)
        → IsReady n (suc k) a.plog
        → promises i j b (req.msg, (do_handle_msg st cfg req a).0) ≡ true
        → (x : Entry) × (logged i j (do_handle_msg st cfg req a).1.plog ≡ some x) × (b ≤ ballot x)
    promised_now k b req a r h =
        let f = promises_for i j b req.msg _ h in
        let (t, p, e, pid) = is_for_lem _ i j b req.msg f in
        let run = handle_prepare st cfg req a t in
        let (rsp, a') = handle_prepare_req st req.msg.proposal a in
        let told =
          promises_told i j b req.msg req.cb cfg req rsp
            (subst (λ x. promises i j b (req.msg, x.0) ≡ true) run h) in
        let (x, at, low) =
          handle_prepare_req_promised st n k req.msg.proposal a pos r told.0 told.1 in
        rw run (x, logged_for _ b req.msg a'.plog (some x) f at, omega arith)

    -- Before a promise the entry has no accepted value.
    pub promised_fresh :
        (b : ℕ) (req : PaxosRequest) (a : Acceptor D) (x : Entry) (v : Proposal)
        → IsReady n 1 a.plog
        → logged i j a.plog ≡ some x
        → x.accepted ≡ some v
        → promises i j b (req.msg, (do_handle_msg st cfg req a).0) ≡ false
    promised_fresh b req a x v r h g =
        elim (Bool-cases (promises i j b (req.msg, (do_handle_msg st cfg req a).0))) [
          | inr no_ ↦ no_
          | inl yes_ ↦
              let f = promises_for i j b req.msg _ yes_ in
              let run = handle_prepare st cfg req a (is_for_lem _ i j b req.msg f).0 in
              let rsp = (handle_prepare_req st req.msg.proposal a).0 in
              let told =
                promises_told i j b req.msg req.cb cfg req rsp
                  (subst (λ x. promises i j b (req.msg, x.0) ≡ true) run yes_) in
              let never =
                handle_prepare_req_accepted st n b req.msg.proposal x v a pos r
                  (for_logged _ b req.msg a.plog (some x) f h) g in
              let type = handle_prepare_req-type st req.msg.proposal a in
              absurd (retyped b rsp type told.2 never)
        ]

    -- An accept request that was answered as accepted: the entry was bound to no higher ballot, and
    -- has an accepted value now.
    pub accepted_now :
        (k p : ℕ) (req : PaxosRequest) (a : Acceptor D)
        → IsReady n (suc k) a.plog
        → accepts i j p (req.msg, (do_handle_msg st cfg req a).0) ≡ true
        → ((x : Entry) → logged i j a.plog ≡ some x → ballot x ≤ p)
          × ((y : Entry) × (v : Proposal) × (logged i j (do_handle_msg st cfg req a).1.plog
                ≡ some y)
              × (y.accepted ≡ some v))
    accepted_now k p req a r h =
        let f = accepts_for i j p req.msg _ h in
        let (t, _, _, pid) = is_for_lem _ i j p req.msg f in
        let run = handle_accept st cfg req a t in
        let (rsp, a') = handle_accept_req st req.msg.proposal a in
        let told =
          accepts_told i j p req.msg req.cb cfg req rsp
            (subst (λ x. accepts i j p (req.msg, x.0) ≡ true) run h) in
        let (low, (y, v, at, g)) =
          handle_accept_req_accepted st n k req.msg.proposal a pos r told.0 told.1 in
        (
          λ x e. omega (arith, low x (for_logged _ p req.msg a.plog (some x) f e)),
          rw run (y, v, logged_for _ p req.msg a'.plog (some y) f at, g),
        )
