-- ===== src/Acceptor/Accept.antt =====
-- `handleAcceptReq`: what each verdict writes, and how the entries evolve.
use quarrel.Prelude.{
  ℕ, suc, ◌≤◌, ◌<◌, ◌≡◌, refl, none, some, true, false, if◌then◌else◌, arith, Bool-cases, inl, inr,
}
use quarrel.Prelude.Int.{is_zero}
use quarrel.Ptype.{Proposal, clone_proposal}
use quarrel.Ptype.PaxosState
use quarrel.Plog.Entry
use quarrel.Plog.Entry.{Entry}
use quarrel.Plog.EntryMng.{Storage}
use quarrel.Plog.PlogMng
use quarrel.Plog.PlogMng.{PlogMng}
use quarrel.Plog.Cache.Managers.{logged, IsReady, Logs}
use quarrel.Plog.Cache.Logs.{create-Logs, set_accepted-Logs, clear_promised-Logs}
use quarrel.Acceptor.Ballots.{
  ballot, Evolves, Evolves-refl, Evolves-trans, AllEvolve, AllEvolve-trans, Logs-AllEvolve,
  Logs-refl, Logs-trans, Logs-self, create-AllEvolve, written-Evolves, IsReady-fewer,
}
use quarrel.Acceptor.Check.{check_quiet}
use quarrel.Acceptor.Defs.{
  check_local_and_may_trigger_catchup, Acceptor, Verdict, corrupt, duplicate, renew, already_chosen,
  stale, promise_kept, promise_broken, fast, judge_accept, accept_value, execute_accept,
  handle_accept_req,
}

-- What a verdict says about the entry and the request.
abbrev pub Judged : Verdict → Entry → Proposal → Type 0
Judged corrupt ent pp = Unit {0}
Judged duplicate ent pp =
    (e : Proposal) × (ent.accepted ≡ some e) × (e.pid ≡ pp.pid) × (e.value_id ≡ pp.value_id)
Judged renew ent pp =
    (e : Proposal) × (ent.accepted ≡ some e) × (e.pid < pp.pid) × (e.status ≡ PaxosState.accepted)
Judged already_chosen ent pp =
    (e : Proposal) × (ent.accepted ≡ some e) × (e.pid < pp.pid) × (e.status ≡ PaxosState.chosen)
Judged stale ent pp = (e : Proposal) × (ent.accepted ≡ some e) × (pp.pid ≤ e.pid)
Judged promise_kept ent pp =
    (ent.accepted ≡ none) × ((q : Proposal) × (ent.promised ≡ some q) × (q.pid ≤ pp.pid))
Judged promise_broken ent pp =
    (ent.accepted ≡ none) × ((q : Proposal) × (ent.promised ≡ some q) × (pp.pid < q.pid))
Judged fast ent pp = (ent.accepted ≡ none) × (ent.promised ≡ none)

-- The verdict is what the entry and the request are like.
pub judge_accept-Judged :
    (v : Verdict) (ent : Entry) (pp : Proposal) → judge_accept ent pp ≡ v → Judged v ent pp
unfolding judge_accept
judge_accept-Judged corrupt ent pp h = tt
judge_accept-Judged duplicate ent pp h = ground arith
judge_accept-Judged renew ent pp h = ground arith
judge_accept-Judged already_chosen ent pp h = ground arith
judge_accept-Judged stale ent pp h = ground arith
judge_accept-Judged promise_kept ent pp h = ground arith
judge_accept-Judged promise_broken ent pp h = ground arith
judge_accept-Judged fast ent pp h = ground arith

-- The entry with the request accepted, and then with its promise cleared.
abbrev pub accept_entry : Proposal → Entry → Entry
accept_entry pp ent =
    Entry.set_accepted (some (clone_proposal (record pp { status = PaxosState.accepted }))) ent

Evolves-clear :
    (ent : Entry) (e : Proposal) → ent.accepted ≡ some e → Evolves ent (Entry.set_promised none ent)
unfolding Entry.set_promised
Evolves-clear ent e h = record {
  ballot_grows = ground arith;
  accepted_stays = λ a g. (a, g, (omega arith, λ _. refl, λ c. (c, refl)));
}

Evolves-renew :
    (ent : Entry) (pp e : Proposal)
    → ent.accepted ≡ some e
    → e.pid < pp.pid
    → e.status ≡ PaxosState.accepted
    → Evolves ent (accept_entry pp ent)
unfolding Entry.set_accepted clone_proposal
Evolves-renew ent pp e h below st = record {
  ballot_grows = ground arith;
  accepted_stays = λ a g. (_, refl, (ground arith, ground arith, ground arith));
}

Evolves-first :
    (ent : Entry) (pp : Proposal)
    → ent.accepted ≡ none
    → ballot ent ≤ pp.pid
    → Evolves ent (accept_entry pp ent)
unfolding Entry.set_accepted clone_proposal
Evolves-first ent pp h below = record {
  ballot_grows = ground arith;
  accepted_stays = λ a g. absurd (ground arith);
}

pub accepted_now :
    (ent : Entry) (p : Proposal)
    → (Entry.set_accepted (some (clone_proposal p)) ent).accepted ≡ some (clone_proposal p)
unfolding Entry.set_accepted
accepted_now ent p = refl

module _ {D : Type 0} (st : Storage D) where
  -- The log when the handler is done, for a verdict on an entry.
  abbrev pub settle : Verdict → Proposal → Entry → PlogMng D → PlogMng D
  settle v pp ent s =
      let (_, _, accepted, s') = execute_accept st v pp ent s in
      if accepted then (PlogMng.clear_promised st pp.pinst pp.pentry s').1 else s'

  pub accept_value-log :
      (pp : Proposal) (s : PlogMng D)
      → (accept_value st pp s).1
        ≡ (PlogMng.set_accepted st (record pp { status = PaxosState.accepted }) s).1
  unfolding accept_value
  accept_value-log pp s = refl

  -- What the three accepting verdicts come down to.
  abbrev pub settle_accept : Proposal → PlogMng D → PlogMng D
  settle_accept pp s =
      let (saved, s') = accept_value st pp s in
      if saved then (PlogMng.clear_promised st pp.pinst pp.pentry s').1 else s'

  pub settle-renew :
      (pp : Proposal) (ent : Entry) (s : PlogMng D) → settle renew pp ent s ≡ settle_accept pp s
  unfolding execute_accept
  settle-renew pp ent s = ground arith

  pub settle-promise_kept :
      (pp : Proposal) (ent : Entry) (s : PlogMng D)
      → settle promise_kept pp ent s ≡ settle_accept pp s
  unfolding execute_accept
  settle-promise_kept pp ent s = ground arith

  pub settle-fast :
      (pp : Proposal) (ent : Entry) (s : PlogMng D) → settle fast pp ent s ≡ settle_accept pp s
  unfolding execute_accept
  settle-fast pp ent s = ground arith

  module _ (n k : ℕ) (pos : 0 < n) (pp : Proposal) (ent : Entry) (s : PlogMng D) where
    -- The entry after the handler is done.
    abbrev Settles : PlogMng D → Type 0
    Settles s' = (x : Entry) × Logs n k pp.pinst pp.pentry x s s' × Evolves ent x

    cleared :
        (x : Entry) (a : Proposal) (s' : PlogMng D)
        → Logs n k pp.pinst pp.pentry x s s'
        → Evolves ent x
        → x.accepted ≡ some a
        → Settles (PlogMng.clear_promised st pp.pinst pp.pentry s').1
    cleared x a s' l ev h =
        let c =
          clear_promised-Logs st n k pos s' pp.pinst pp.pentry x l.ready
            (Logs-self n k pp.pinst pp.pentry x s s' l) in
        (
          Entry.set_promised none x,
          Logs-trans n k pp.pinst pp.pentry x _ s s' _ l c,
          Evolves-trans ent x _ ev (Evolves-clear x a h),
        )

    module _ (r : IsReady n k s) (h : logged pp.pinst pp.pentry s ≡ some ent) where
      unchanged : Settles s
      unchanged = (ent, Logs-refl n k pp.pinst pp.pentry ent s r h, Evolves-refl ent)

      -- The three verdicts that accept, saved or not.
      accepts : Evolves ent (accept_entry pp ent) → Settles (settle_accept pp s)
      accepts ev =
          let pp' = record pp { status = PaxosState.accepted } in
          let l = set_accepted-Logs st n k pos s pp' ent r h in
          rw (accept_value-log pp s) (elim (Bool-cases (accept_value st pp s).0) [
            | inl b ↦
                rw b
                  (cleared (accept_entry pp ent) (clone_proposal pp') _ l ev (accepted_now ent pp'))
            | inr b ↦ rw b (accept_entry pp ent, l, ev)
          ])

      duplicates : (e : Proposal) → ent.accepted ≡ some e → Settles (settle duplicate pp ent s)
      unfolding execute_accept
      duplicates e g =
          cleared ent e s (Logs-refl n k pp.pinst pp.pentry ent s r h) (Evolves-refl ent) g

      -- Whatever the verdict, the entry evolves and no other is written.
      settle-Settles : (v : Verdict) → Judged v ent pp → Settles (settle v pp ent s)
      unfolding execute_accept
      settle-Settles corrupt j = unchanged
      settle-Settles duplicate j = duplicates j.0 j.1
      settle-Settles renew j =
          rw (settle-renew pp ent s) (accepts (Evolves-renew ent pp j.0 j.1 j.2 j.3))
      settle-Settles already_chosen j = unchanged
      settle-Settles stale j = unchanged
      settle-Settles promise_kept j =
          rw (settle-promise_kept pp ent s) (accepts (Evolves-first ent pp j.0 (ground arith)))
      settle-Settles promise_broken j = unchanged
      settle-Settles fast j =
          rw (settle-fast pp ent s) (accepts (Evolves-first ent pp j.0 (ground arith)))

  -- `handleAcceptReq` past its first test.
  pub accept_pass :
      (pp : Proposal) (a : Acceptor D)
      → is_zero (check_local_and_may_trigger_catchup pp a).0 ≡ true
      → let (ent, s) =
          PlogMng.get_entry_and_create_if_not_exist st pp.pinst pp.pentry
            (check_local_and_may_trigger_catchup pp a).1.plog in
        (handle_accept_req st pp a).1.plog ≡ settle (judge_accept ent pp) pp ent s
  unfolding handle_accept_req
  accept_pass pp a h = ground arith

  accept_refuse :
      (pp : Proposal) (a : Acceptor D)
      → is_zero (check_local_and_may_trigger_catchup pp a).0 ≡ false
      → (handle_accept_req st pp a).1.plog ≡ (check_local_and_may_trigger_catchup pp a).1.plog
  unfolding handle_accept_req
  accept_refuse pp a h = ground arith

  -- An accept request writes its own entry alone, and that entry evolves.
  pub handle_accept_req-AllEvolve :
      (n k : ℕ) (pp : Proposal) (a : Acceptor D)
      → 0 < n
      → IsReady n (suc k) a.plog
      → IsReady n k (handle_accept_req st pp a).1.plog
        × AllEvolve a.plog (handle_accept_req st pp a).1.plog
  handle_accept_req-AllEvolve n k pp a pos r =
      let (r', ev) = check_quiet st n (suc k) pp a pos r in
      let s1 = (check_local_and_may_trigger_catchup pp a).1.plog in
      elim (Bool-cases (is_zero (check_local_and_may_trigger_catchup pp a).0)) [
        | inr b ↦ rw (accept_refuse pp a b) (IsReady-fewer n k s1 r', ev)
        | inl b ↦
            let ent = (PlogMng.get_entry_and_create_if_not_exist st pp.pinst pp.pentry s1).0 in
            let s2 = (PlogMng.get_entry_and_create_if_not_exist st pp.pinst pp.pentry s1).1 in
            let (l, old) = create-Logs st n k pos s1 pp.pinst pp.pentry r' in
            let (x, l', e') =
              settle-Settles n k pos pp ent s2 l.ready (Logs-self n k _ _ ent s1 s2 l)
                (judge_accept ent pp) (judge_accept-Judged (judge_accept ent pp) ent pp refl) in
            rw (accept_pass pp a b) (
              l'.ready,
              AllEvolve-trans a.plog s1 _ ev (
                  AllEvolve-trans s1 s2 _ (create-AllEvolve n k _ _ ent s1 s2 r'.count l old) (
                    Logs-AllEvolve n k _ _ x s2 _ l.ready.count l'
                      (written-Evolves _ _ ent x s2 (Logs-self n k _ _ ent s1 s2 l) e'))),
            )
      ]
