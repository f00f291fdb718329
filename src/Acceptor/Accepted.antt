-- ===== src/Acceptor/Accepted.antt =====
-- What it means that an accept request was answered with the state accepted.
use quarrel.Prelude.{ℕ, suc, ◌≤◌, ◌<◌, ◌≡◌, ◌∙◌, ap, refl, none, some, true, arith}
use quarrel.Prelude.Int.{is_zero}
use quarrel.Ptype.{Proposal, clone_proposal}
use quarrel.Ptype.PaxosState
use quarrel.Plog.Entry
use quarrel.Plog.Entry.{Entry}
use quarrel.Plog.EntryMng.{Storage}
use quarrel.Plog.PlogMng
use quarrel.Plog.PlogMng.{PlogMng}
use quarrel.Plog.Cache.Managers.{logged, IsReady}
use quarrel.Plog.Cache.Logs.{create-Logs, set_accepted-Logs, clear_promised-Logs}
use quarrel.Acceptor.Ballots.{ballot, Logs-self}
use quarrel.Acceptor.Check.{check_quiet}
use quarrel.Acceptor.Accept.{
  Judged, judge_accept-Judged, accept_entry, settle, settle_accept, settle-renew,
  settle-promise_kept, settle-fast, accept_value-log, accept_pass, accepted_now,
}
use quarrel.Acceptor.Defs.{
  check_local_and_may_trigger_catchup, Acceptor, Verdict, corrupt, duplicate, renew, already_chosen,
  stale, promise_kept, promise_broken, fast, judge_accept, accept_value, execute_accept, accept_rsp,
  handle_accept_req,
}

module _ {D : Type 0} (st : Storage D) where
  -- A verdict that ends with no error and an accepted value was one of three, and was saved.
  abbrev Took : Verdict → Proposal → Entry → PlogMng D → Type 0
  Took v pp ent s =
      (ballot ent ≤ pp.pid)
      × (settle st v pp ent s
          ≡ (PlogMng.clear_promised st pp.pinst pp.pentry (accept_value st pp s).1).1)

  settle_accept_saved :
      (pp : Proposal) (s : PlogMng D)
      → (accept_value st pp s).0 ≡ true
      → settle_accept st pp s
        ≡ (PlogMng.clear_promised st pp.pinst pp.pentry (accept_value st pp s).1).1
  settle_accept_saved pp s h = rw h refl

  renew_saved :
      (pp : Proposal) (ent : Entry) (s : PlogMng D)
      → (execute_accept st renew pp ent s).2 ≡ true
      → (accept_value st pp s).0 ≡ true
  unfolding execute_accept
  renew_saved pp ent s h = ground arith

  promise_kept_saved :
      (pp : Proposal) (ent : Entry) (s : PlogMng D)
      → (execute_accept st promise_kept pp ent s).2 ≡ true
      → (accept_value st pp s).0 ≡ true
  unfolding execute_accept
  promise_kept_saved pp ent s h = ground arith

  fast_saved :
      (pp : Proposal) (ent : Entry) (s : PlogMng D)
      → (execute_accept st fast pp ent s).2 ≡ true
      → (accept_value st pp s).0 ≡ true
  unfolding execute_accept
  fast_saved pp ent s h = ground arith

  took :
      (v : Verdict) (pp : Proposal) (ent : Entry) (s : PlogMng D)
      → Judged v ent pp
      → is_zero (execute_accept st v pp ent s).0 ≡ true
      → (execute_accept st v pp ent s).2 ≡ true
      → Took v pp ent s
  unfolding execute_accept
  took corrupt pp ent s j z t = cc
  took duplicate pp ent s j z t = cc
  took renew pp ent s j z t =
      (ground arith, settle-renew st pp ent s ∙ settle_accept_saved pp s (renew_saved pp ent s t))
  took already_chosen pp ent s j z t = cc
  took stale pp ent s j z t = cc
  took promise_kept pp ent s j z t = (
    ground arith,
    settle-promise_kept st pp ent s ∙ settle_accept_saved pp s (promise_kept_saved pp ent s t),
  )
  took promise_broken pp ent s j z t = cc
  took fast pp ent s j z t =
      (ground arith, settle-fast st pp ent s ∙ settle_accept_saved pp s (fast_saved pp ent s t))

  accept_answer :
      (pp : Proposal) (a : Acceptor D)
      → is_zero (handle_accept_req st pp a).0.errcode ≡ true
      → (handle_accept_req st pp a).0.proposal.status ≡ PaxosState.accepted
      → let (ent, s) =
          PlogMng.get_entry_and_create_if_not_exist st pp.pinst pp.pentry
            (check_local_and_may_trigger_catchup pp a).1.plog in
        (is_zero (check_local_and_may_trigger_catchup pp a).0 ≡ true)
        × (is_zero (execute_accept st (judge_accept ent pp) pp ent s).0 ≡ true)
        × ((execute_accept st (judge_accept ent pp) pp ent s).2 ≡ true)
  unfolding handle_accept_req accept_rsp
  accept_answer pp a z t = ground arith

  cleared_now : (x : Entry) → (Entry.set_promised none x).accepted ≡ x.accepted
  unfolding Entry.set_promised
  cleared_now x = refl

  -- On an acceptor whose caches are valid and have room for a request: if the answer to an accept
  -- request has no error and the state accepted, then the entry, if the log had it, was bound to no
  -- higher ballot, by a promise or by an accepted value, and the log has an accepted value for it
  -- afterwards. So a request below the ballot is never answered that way.
  pub handle_accept_req_accepted :
      (n k : ℕ) (pp : Proposal) (a : Acceptor D)
      → 0 < n
      → IsReady n (suc k) a.plog
      → is_zero (handle_accept_req st pp a).0.errcode ≡ true
      → (handle_accept_req st pp a).0.proposal.status ≡ PaxosState.accepted
      → ((x : Entry) → logged pp.pinst pp.pentry a.plog ≡ some x → ballot x ≤ pp.pid)
        × ((y : Entry) × (v : Proposal) × (logged pp.pinst pp.pentry
                (handle_accept_req st pp a).1.plog
              ≡ some y)
            × (y.accepted ≡ some v))
  handle_accept_req_accepted n k pp a pos r z t =
      let (r', ev) = check_quiet st n (suc k) pp a pos r in
      let s1 = (check_local_and_may_trigger_catchup pp a).1.plog in
      let ent = (PlogMng.get_entry_and_create_if_not_exist st pp.pinst pp.pentry s1).0 in
      let s2 = (PlogMng.get_entry_and_create_if_not_exist st pp.pinst pp.pentry s1).1 in
      let (l, old) = create-Logs st n k pos s1 pp.pinst pp.pentry r' in
      let self = Logs-self n k _ _ ent s1 s2 l in
      let (b, z', t') = accept_answer pp a z t in
      let v = judge_accept ent pp in
      let (low, done) = took v pp ent s2 (judge_accept-Judged v ent pp refl) z' t' in
      let pp' = record pp { status = PaxosState.accepted } in
      let w = set_accepted-Logs st n k pos s2 pp' ent l.ready self in
      let s3 = (PlogMng.set_accepted st pp' s2).1 in
      let c =
        clear_promised-Logs st n k pos s3 pp.pinst pp.pentry (accept_entry pp ent) w.ready
          (Logs-self n k _ _ _ s2 s3 w) in
      (
        λ x h.
            let (x', h', kept) = ev pp.pinst pp.pentry x h in
            omega (arith, kept.ballot_grows, ap ballot (old x' h'), low),
        (
          Entry.set_promised none (accept_entry pp ent),
          clone_proposal pp',
          rw (accept_pass st pp a b, done, accept_value-log st pp s2) (Logs-self n k _ _ _ s3 _ c),
          cleared_now (accept_entry pp ent) ∙ accepted_now ent pp',
        ),
      )
