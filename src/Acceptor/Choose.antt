-- ===== src/Acceptor/Choose.antt =====
-- `handleChosenReq`: what it writes, and how the entries evolve.
use quarrel.Prelude.{ℕ, suc, ◌<◌, ◌≡◌, ◌≢◌, ◌⊎◌, refl, some, arith, inl, inr}
use quarrel.Ptype.{Proposal, PaxosMsg}
use quarrel.Ptype.PaxosState
use quarrel.Plog.Entry.{Entry}
use quarrel.Plog.EntryMng.{Storage}
use quarrel.Plog.PlogMng
use quarrel.Plog.PlogMng.{PlogMng, on_mng}
use quarrel.Plog.Cache.Choose.{with_status}
use quarrel.Plog.Cache.Managers.{logged, IsReady, Logs}
use quarrel.Plog.Cache.Logs.{create-Logs, set_chosen-Logs, write_entry-Logs}
use quarrel.Acceptor.Ballots.{
  Evolves, Evolves-refl, AllEvolve, AllEvolve-trans, Logs-AllEvolve, Logs-refl, Logs-trans,
  Logs-self, create-AllEvolve, written-Evolves,
}
use quarrel.Acceptor.Defs.{Acceptor, write_status, chosen_rsp, commit_chosen, handle_chosen_req}

Evolves-status :
    (ent : Entry) (e : Proposal) (status : ℕ)
    → ent.accepted ≡ some e
    → (e.status ≡ PaxosState.chosen → status ≡ PaxosState.chosen)
    → Evolves ent (with_status ent e status)
Evolves-status ent e status h c = record {
  ballot_grows = ground arith;
  accepted_stays =
      λ a g. (_, refl, (ground arith, ground arith, λ d. (c (ground arith), ground arith)));
}

module _ {D : Type 0} (st : Storage D) (n k : ℕ) (pos : 0 < n) where
  write_status-Logs :
      (p e : ℕ) (ent w : Entry) (a : Proposal) (status : ℕ) (s : PlogMng D)
      → IsReady n k s
      → logged p e s ≡ some w
      → Logs n k p e (with_status ent a status) s (write_status p e ent a status s)
  unfolding write_status
  write_status-Logs p e ent w a status s r h =
      write_entry-Logs st n k pos s p e (with_status ent a status) w r h

  -- The log after a commit of a proposal that was not chosen before.
  commit_cases :
      (pp : Proposal) (ent : Entry) (e : Proposal) (rsp : PaxosMsg) (s : PlogMng D)
      → let s' = write_status pp.pinst pp.pentry ent e PaxosState.chosen s in
        let s'' = (PlogMng.set_chosen st pp.pinst pp.pentry s').1 in
        ((commit_chosen st pp ent e rsp s).1 ≡ s)
        ⊎ ((commit_chosen st pp ent e rsp s).1 ≡ s'')
        ⊎ ((e.status ≢ PaxosState.chosen)
            × ((commit_chosen st pp ent e rsp s).1
                ≡ write_status pp.pinst pp.pentry ent e PaxosState.accepted s''))
  unfolding commit_chosen
  commit_cases pp ent e rsp s = ground arith

  commit_chosen-Settles :
      (pp : Proposal) (ent : Entry) (e : Proposal) (rsp : PaxosMsg) (s : PlogMng D)
      → IsReady n k s
      → logged pp.pinst pp.pentry s ≡ some ent
      → ent.accepted ≡ some e
      → (x : Entry) × Logs n k pp.pinst pp.pentry x s (commit_chosen st pp ent e rsp s).1
        × Evolves ent x
  commit_chosen-Settles pp ent e rsp s r h g =
      let p = pp.pinst in
      let i = pp.pentry in
      let s' = write_status p i ent e PaxosState.chosen s in
      let x : Entry = with_status ent e PaxosState.chosen in
      let l = write_status-Logs p i ent ent e PaxosState.chosen s r h in
      let l2 =
        set_chosen-Logs st n k pos s' p i x (record e { status = PaxosState.chosen }) l.ready
          (Logs-self n k p i x s s' l) refl in
      let s'' = (PlogMng.set_chosen st p i s').1 in
      let l3 = Logs-trans n k p i x x s s' s'' l l2 in
      elim (commit_cases pp ent e rsp s) [
        | inl q ↦ rw q (ent, Logs-refl n k p i ent s r h, Evolves-refl ent)
        | inr o ↦ elim o [
          | inl q ↦ rw q (x, l3, Evolves-status ent e PaxosState.chosen g (λ _. refl))
          | inr (open_, q) ↦
              let l4 =
                write_status-Logs p i ent x e PaxosState.accepted s'' l3.ready
                  (Logs-self n k p i x s s'' l3) in
              rw q (
                with_status ent e PaxosState.accepted,
                Logs-trans n k p i x _ s s'' _ l3 l4,
                Evolves-status ent e PaxosState.accepted g (λ c. absurd (open_ c)),
              )
        ]
      ]

  -- The log after the handler, by what it finds.
  chosen_cases :
      (pp : Proposal) (a : Acceptor D)
      → let (ent, s) = PlogMng.get_entry_and_create_if_not_exist st pp.pinst pp.pentry a.plog in
        ((handle_chosen_req st pp a).1.plog ≡ s)
        ⊎ ((e : Proposal) × (ent.accepted ≡ some e)
            × ((handle_chosen_req st pp a).1.plog
                ≡ (commit_chosen st pp ent e (chosen_rsp pp) s).1))
  unfolding handle_chosen_req
  chosen_cases pp a = ground arith

  -- A chosen request writes its own entry alone, and that entry evolves.
  pub handle_chosen_req-AllEvolve :
      (pp : Proposal) (a : Acceptor D)
      → IsReady n (suc k) a.plog
      → IsReady n k (handle_chosen_req st pp a).1.plog
        × AllEvolve a.plog (handle_chosen_req st pp a).1.plog
  handle_chosen_req-AllEvolve pp a r =
      let made = PlogMng.get_entry_and_create_if_not_exist st pp.pinst pp.pentry a.plog in
      let (l, old) = create-Logs st n k pos a.plog pp.pinst pp.pentry r in
      let here = Logs-self n k _ _ made.0 a.plog made.1 l in
      let ev = create-AllEvolve n k _ _ made.0 a.plog made.1 r.count l old in
      elim (chosen_cases pp a) [
        | inl q ↦ rw q (l.ready, ev)
        | inr (e, g, q) ↦
            let (x, l', e') =
              commit_chosen-Settles pp made.0 e (chosen_rsp pp) made.1 l.ready here g in
            rw q (
              l'.ready,
              AllEvolve-trans a.plog made.1 _ ev (
                  Logs-AllEvolve n k _ _ x made.1 _ l.ready.count l'
                    (written-Evolves _ _ made.0 x made.1 here e')),
            )
      ]
