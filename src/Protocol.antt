-- ===== src/Protocol.antt =====
-- Where the two roles meet: what the proposer makes of the acceptor's answers.
pub mod History
pub mod Agreement
pub mod Delivery
pub mod Rivals
pub mod Votes
use quarrel.Prelude.{ℕ, ◌<◌, ◌≡◌, ◌⊎◌, inl, inr, refl, ◌∙◌, ap, some, false, arith, Bool-cases}
use quarrel.Prelude.Int.{is_zero}
use quarrel.Ptype.{Proposal, PaxosMsg}
use quarrel.Ptype.PaxosState
use quarrel.Plog.Entry.{Entry}
use quarrel.Plog.EntryMng.{Storage}
use quarrel.Plog.PlogMng
use quarrel.Plog.Cache.Managers.{logged, IsReady}
use quarrel.Plog.Cache.Logs.{create-Logs}
use quarrel.Acceptor.Check.{check_quiet}
use quarrel.Acceptor.Defs.{
  Acceptor, Answer, prepare_rsp, answer_prepare, handle_prepare_req,
  check_local_and_may_trigger_catchup, max_chosen,
}
use quarrel.Proposer.Respond.Quorum.{is_promise}

error_refused : (pid : ℕ) (m : PaxosMsg) → is_zero m.errcode ≡ false → is_promise pid m ≡ false
error_refused pid m h = ground arith

accepted_refused :
    (pid c : ℕ) (ans : Answer)
    → ans.status ≡ PaxosState.accepted
    → is_promise pid (prepare_rsp ans c) ≡ false
unfolding prepare_rsp
accepted_refused pid c ans h = ground arith

module _ {D : Type 0} (st : Storage D) where
  answer_prepare_accepted :
      (pp : Proposal) (ent : Entry) (v : Proposal) (a : Acceptor D)
      → ent.accepted ≡ some v
      → (answer_prepare st pp ent a).0.status ≡ PaxosState.accepted
  unfolding answer_prepare
  answer_prepare_accepted pp ent v a h = ground arith

  handle_prepare_req_cases :
      (pp : Proposal) (a : Acceptor D)
      → let a' = (check_local_and_may_trigger_catchup pp a).1 in
        let (ent, plog) = PlogMng.get_entry_and_create_if_not_exist st pp.pinst pp.pentry a'.plog in
        let (ans, a'') = answer_prepare st pp ent (record a' { plog = plog }) in
        ((handle_prepare_req st pp a).0 ≡ prepare_rsp ans (max_chosen pp.pinst a''))
        ⊎ (is_zero (handle_prepare_req st pp a).0.errcode ≡ false)
  unfolding handle_prepare_req prepare_rsp
  handle_prepare_req_cases pp a =
      elim (Bool-cases (is_zero (check_local_and_may_trigger_catchup pp a).0)) [
        | inl h ↦ inl (rw h refl)
        | inr h ↦ inr (ground arith)
      ]

  -- If an entry is cached with an accepted value, and the caches are valid and have room for one more
  -- entry, then the answer to a prepare request for that entry, whatever the ids of the two, is no
  -- promise to the proposer: one of the tests that `handlePrepareRsp` makes of the type, the error,
  -- the state and the id fails.
  pub handle_prepare_req_accepted :
      (n pid : ℕ) (pp : Proposal) (x : Entry) (v : Proposal) (a : Acceptor D)
      → 0 < n
      → IsReady n 1 a.plog
      → logged pp.pinst pp.pentry a.plog ≡ some x
      → x.accepted ≡ some v
      → is_promise pid (handle_prepare_req st pp a).0 ≡ false
  handle_prepare_req_accepted n pid pp x v a pos r h g =
      let a' = (check_local_and_may_trigger_catchup pp a).1 in
      let (r', ev) = check_quiet st n 1 pp a pos r in
      let (x', h', kept) = ev pp.pinst pp.pentry x h in
      let (v', g', _) = kept.accepted_stays v g in
      let (_, old) = create-Logs st n 0 pos a'.plog pp.pinst pp.pentry r' in
      let made = PlogMng.get_entry_and_create_if_not_exist st pp.pinst pp.pentry a'.plog in
      let here : made.0.accepted ≡ some v' = ap (λ (e : Entry). e.accepted) (old x' h') ∙ g' in
      elim (handle_prepare_req_cases pp a) [
        | inl e ↦ rw e (
            accepted_refused pid _ _
              (answer_prepare_accepted pp made.0 v' (record a' { plog = made.1 }) here))
        | inr bad ↦ error_refused pid (handle_prepare_req st pp a).0 bad
      ]
