-- ===== src/Acceptor/Promise.antt =====
-- `handlePrepareReq`: what it writes, and how the entries evolve.
use quarrel.Prelude.{
  ℕ, suc, ◌≤◌, ◌<◌, ◌≡◌, ◌⊎◌, none, some, true, false, arith, Bool-cases, inl, inr, sym, ◌∙◌,
}
use quarrel.Prelude.Int.{is_zero}
use quarrel.Ptype.{Proposal, clone_proposal}
use quarrel.Ptype.PaxosState
use quarrel.Plog.Entry
use quarrel.Plog.Entry.{Entry}
use quarrel.Plog.EntryMng.{Storage}
use quarrel.Plog.PlogMng
use quarrel.Plog.PlogMng.{PlogMng}
use quarrel.Plog.Cache.Managers.{logged, IsReady}
use quarrel.Plog.Cache.Logs.{create-Logs, set_promised-Logs}
use quarrel.Acceptor.Ballots.{
  ballot, Evolves, Evolves-refl, AllEvolve, AllEvolve-trans, Logs-AllEvolve, Logs-self,
  create-AllEvolve, written-Evolves, IsReady-fewer,
}
use quarrel.Acceptor.Check.{check_quiet}
use quarrel.Acceptor.Defs.{
  Acceptor, prepare_rsp, answer_prepare, handle_prepare_req, check_local_and_may_trigger_catchup,
}

-- The promise that is stored.
abbrev promise : Proposal → Proposal
promise pp = record pp { status = PaxosState.promised }

Evolves-promise :
    (ent : Entry) (pp : Proposal)
    → ent.accepted ≡ none
    → ballot ent ≤ pp.pid
    → Evolves ent (Entry.set_promised (some (clone_proposal (promise pp))) ent)
unfolding Entry.set_promised clone_proposal
Evolves-promise ent pp h below = record {
  ballot_grows = ground arith;
  accepted_stays = λ a g. absurd (ground arith);
}

module _ {D : Type 0} (st : Storage D) where
  -- A promise is stored only over a smaller one, and only if nothing was accepted.
  answer_prepare-plog :
      (pp : Proposal) (ent : Entry) (a : Acceptor D)
      → ((answer_prepare st pp ent a).1.plog ≡ a.plog)
        ⊎ (((answer_prepare st pp ent a).1.plog ≡ (PlogMng.set_promised st (promise pp) a.plog).1)
            × (ent.accepted ≡ none)
            × (ballot ent ≤ pp.pid))
  unfolding answer_prepare
  answer_prepare-plog pp ent a = ground arith

  prepare_pass :
      (pp : Proposal) (a : Acceptor D)
      → is_zero (check_local_and_may_trigger_catchup pp a).0 ≡ true
      → let a' = (check_local_and_may_trigger_catchup pp a).1 in
        let (ent, s) = PlogMng.get_entry_and_create_if_not_exist st pp.pinst pp.pentry a'.plog in
        (handle_prepare_req st pp a).1 ≡ (answer_prepare st pp ent (record a' { plog = s })).1
  unfolding handle_prepare_req
  prepare_pass pp a h = ground arith

  prepare_refuse :
      (pp : Proposal) (a : Acceptor D)
      → is_zero (check_local_and_may_trigger_catchup pp a).0 ≡ false
      → (handle_prepare_req st pp a).1 ≡ (check_local_and_may_trigger_catchup pp a).1
  unfolding handle_prepare_req
  prepare_refuse pp a h = ground arith

  answer_prepare-AllEvolve :
      (n k : ℕ) (pp : Proposal) (ent : Entry) (a : Acceptor D)
      → 0 < n
      → IsReady n k a.plog
      → logged pp.pinst pp.pentry a.plog ≡ some ent
      → IsReady n k (answer_prepare st pp ent a).1.plog
        × AllEvolve a.plog (answer_prepare st pp ent a).1.plog
  answer_prepare-AllEvolve n k pp ent a pos r h = elim (answer_prepare-plog pp ent a) [
    | inl e ↦ rw e (r, λ i j x g. (x, g, Evolves-refl x))
    | inr (e, fresh, below) ↦
        let l = set_promised-Logs st n k pos a.plog (promise pp) ent r h in
        rw e (
          l.ready,
          Logs-AllEvolve n k _ _ _ a.plog _ r.count l
              (written-Evolves _ _ ent _ a.plog h (Evolves-promise ent pp fresh below)),
        )
  ]

  -- A prepare request writes its own entry alone, and that entry evolves.
  pub handle_prepare_req-AllEvolve :
      (n k : ℕ) (pp : Proposal) (a : Acceptor D)
      → 0 < n
      → IsReady n (suc k) a.plog
      → IsReady n k (handle_prepare_req st pp a).1.plog
        × AllEvolve a.plog (handle_prepare_req st pp a).1.plog
  handle_prepare_req-AllEvolve n k pp a pos r =
      let a' = (check_local_and_may_trigger_catchup pp a).1 in
      let (r', ev) = check_quiet st n (suc k) pp a pos r in
      elim (Bool-cases (is_zero (check_local_and_may_trigger_catchup pp a).0)) [
        | inr b ↦ rw (prepare_refuse pp a b) (IsReady-fewer n k a'.plog r', ev)
        | inl b ↦
            let made = PlogMng.get_entry_and_create_if_not_exist st pp.pinst pp.pentry a'.plog in
            let (l, old) = create-Logs st n k pos a'.plog pp.pinst pp.pentry r' in
            let (r'', ev') =
              answer_prepare-AllEvolve n k pp made.0 (record a' { plog = made.1 }) pos l.ready
                (Logs-self n k _ _ made.0 a'.plog made.1 l) in
            rw (prepare_pass pp a b) (
              r'',
              AllEvolve-trans a.plog a'.plog _ ev (
                  AllEvolve-trans a'.plog made.1 _
                    (create-AllEvolve n k _ _ made.0 a'.plog made.1 r'.count l old) ev'),
            )
      ]

  answer_prepare_promised :
      (pp : Proposal) (ent : Entry) (a : Acceptor D)
      → is_zero (answer_prepare st pp ent a).0.errcode ≡ true
      → (answer_prepare st pp ent a).0.status ≡ PaxosState.promised
      → (((answer_prepare st pp ent a).1.plog ≡ a.plog) × (pp.pid ≤ ballot ent))
        ⊎ (((answer_prepare st pp ent a).1.plog ≡ (PlogMng.set_promised st (promise pp) a.plog).1)
            × (ent.accepted ≡ none))
  unfolding answer_prepare
  answer_prepare_promised pp ent a zero_ told = ground arith

  ballot_promised :
      (ent : Entry) (pp : Proposal)
      → ent.accepted ≡ none
      → pp.pid ≤ ballot (Entry.set_promised (some (clone_proposal (promise pp))) ent)
  unfolding Entry.set_promised clone_proposal
  ballot_promised ent pp h = ground arith

  prepare_answer :
      (pp : Proposal) (a : Acceptor D)
      → is_zero (handle_prepare_req st pp a).0.errcode ≡ true
      → let a' = (check_local_and_may_trigger_catchup pp a).1 in
        let (ent, s) = PlogMng.get_entry_and_create_if_not_exist st pp.pinst pp.pentry a'.plog in
        let (ans, a'') = answer_prepare st pp ent (record a' { plog = s }) in
        (is_zero (check_local_and_may_trigger_catchup pp a).0 ≡ true)
        × (is_zero ans.errcode ≡ true)
        × ((handle_prepare_req st pp a).0.proposal.status ≡ ans.status)
  unfolding handle_prepare_req prepare_rsp
  prepare_answer pp a h = ground arith

  -- On an acceptor whose caches are valid and have room for a request: if the answer to a prepare
  -- request has no error and the state promised, then the log has the entry afterwards, and the ballot
  -- that it is bound to, by a promise or by an accepted value, is not below the request's.
  pub handle_prepare_req_promised :
      (n k : ℕ) (pp : Proposal) (a : Acceptor D)
      → 0 < n
      → IsReady n (suc k) a.plog
      → is_zero (handle_prepare_req st pp a).0.errcode ≡ true
      → (handle_prepare_req st pp a).0.proposal.status ≡ PaxosState.promised
      → (x : Entry) × (logged pp.pinst pp.pentry (handle_prepare_req st pp a).1.plog ≡ some x)
        × (pp.pid ≤ ballot x)
  handle_prepare_req_promised n k pp a pos r zero_ told =
      let a' = (check_local_and_may_trigger_catchup pp a).1 in
      let (r', _) = check_quiet st n (suc k) pp a pos r in
      let made = PlogMng.get_entry_and_create_if_not_exist st pp.pinst pp.pentry a'.plog in
      let (l, _) = create-Logs st n k pos a'.plog pp.pinst pp.pentry r' in
      let self = Logs-self n k _ _ made.0 a'.plog made.1 l in
      let (b, z, t) = prepare_answer pp a zero_ in
      elim (answer_prepare_promised pp made.0 (record a' { plog = made.1 }) z (sym t ∙ told)) [
        | inl (same, below) ↦ rw (prepare_pass pp a b, same) (made.0, self, below)
        | inr (put, fresh) ↦
            let w = set_promised-Logs st n k pos made.1 (promise pp) made.0 l.ready self in
            rw (prepare_pass pp a b, put)
              (_, Logs-self n k _ _ _ made.1 _ w, ballot_promised made.0 pp fresh)
      ]
