-- ===== src/Acceptor/Stable.antt =====
-- Whole runs of an acceptor: the requests one after the other, of any types and contents.
use quarrel.Prelude.{ℕ, suc, ◌<◌, ◌≡◌, ◌⊎◌, refl, ◌∙◌, List, [], ◌∷◌, length, some, arith, inl, inr}
use quarrel.Config.{Configure}
use quarrel.Ptype.{Proposal, PaxosMsg}
use quarrel.Ptype.PaxosState
use quarrel.Plog.Entry.{Entry}
use quarrel.Plog.EntryMng.{Storage}
use quarrel.Plog.PlogMng
use quarrel.Plog.PlogMng.{PlogMng}
use quarrel.Plog.Cache.Managers.{logged, IsReady}
use quarrel.Plog.Cache.Logs.{read_quiet}
use quarrel.Acceptor.Ballots.{AllEvolve, AllEvolve-same, AllEvolve-trans, IsReady-fewer}
use quarrel.Acceptor.Promise.{handle_prepare_req-AllEvolve}
use quarrel.Acceptor.Accept.{handle_accept_req-AllEvolve}
use quarrel.Acceptor.Choose.{handle_chosen_req-AllEvolve}
use quarrel.Acceptor.Defs.{
  Acceptor, PaxosRequest, handle_prepare_req, handle_accept_req, handle_chosen_req,
  do_catchup_from_peer, dispatch, do_handle_msg, run,
}

module _ {D : Type 0} (st : Storage D) (n : ℕ) (pos : 0 < n) where
  -- Which handler a message reaches.
  dispatch_cases :
      (msg : PaxosMsg) (a : Acceptor D)
      → ((dispatch st msg a).1 ≡ (handle_prepare_req st msg.proposal a).1)
        ⊎ ((dispatch st msg a).1 ≡ (handle_accept_req st msg.proposal a).1)
        ⊎ ((dispatch st msg a).1 ≡ (handle_chosen_req st msg.proposal a).1)
        ⊎ ((dispatch st msg a).1 ≡ do_catchup_from_peer st msg.proposal a)
        ⊎ ((dispatch st msg a).1 ≡ a)
  unfolding dispatch
  dispatch_cases msg a = ground arith

  catchup_quiet :
      (k : ℕ) (pp : Proposal) (a : Acceptor D)
      → IsReady n k a.plog
      → IsReady n k (do_catchup_from_peer st pp a).plog
        × AllEvolve a.plog (do_catchup_from_peer st pp a).plog
  unfolding do_catchup_from_peer PlogMng.get_max_chosen_entry PlogMng.get_max_committed_entry
      PlogMng.get_global_max_chosen_entry
  catchup_quiet k pp a r =
      let p = pp.pinst in
      let s1 = (PlogMng.get_max_chosen_entry p a.plog).1 in
      let s2 = (PlogMng.get_max_committed_entry p s1).1 in
      let (r1, e1) = read_quiet st n k pos a.plog p (λ m. m.last_chosen_entry) r in
      let (r2, e2) = read_quiet st n k pos s1 p (λ m. m.max_committed_entry) r1 in
      let (r3, e3) = read_quiet st n k pos s2 p (λ m. m.global_max_chosen_entry) r2 in
      (r3, AllEvolve-same a.plog _ (λ i j. e3 i j ∙ e2 i j ∙ e1 i j))

  pub dispatch-AllEvolve :
      (k : ℕ) (msg : PaxosMsg) (a : Acceptor D)
      → IsReady n (suc k) a.plog
      → IsReady n k (dispatch st msg a).1.plog × AllEvolve a.plog (dispatch st msg a).1.plog
  dispatch-AllEvolve k msg a r = elim (dispatch_cases msg a) [
    | inl e ↦ rw e (handle_prepare_req-AllEvolve st n k msg.proposal a pos r)
    | inr o ↦ elim o [
      | inl e ↦ rw e (handle_accept_req-AllEvolve st n k msg.proposal a pos r)
      | inr o' ↦ elim o' [
        | inl e ↦ rw e (handle_chosen_req-AllEvolve st n k pos msg.proposal a r)
        | inr o'' ↦ elim o'' [
          | inl e ↦ rw e (catchup_quiet k msg.proposal a (IsReady-fewer n k a.plog r))
          | inr e ↦ rw e (IsReady-fewer n k a.plog r, AllEvolve-same a.plog a.plog (λ i j. refl))
        ]
      ]
    ]
  ]

  pub do_handle_msg-state :
      (cfg : Configure) (req : PaxosRequest) (a : Acceptor D)
      → (do_handle_msg st cfg req a).1 ≡ (dispatch st req.msg a).1
  unfolding do_handle_msg
  do_handle_msg-state cfg req a = ground arith

  -- Over any sequence of requests, of any types and contents, to an acceptor whose caches are valid
  -- and have room for one more entry per request: every entry that was cached is still cached; its
  -- ballot has not fallen; an accepted proposal has given way only to one of a greater id, never to
  -- another value under the same id; and a chosen one is still chosen, under the same id.
  pub run-AllEvolve :
      (cfg : Configure) (reqs : List PaxosRequest) (a : Acceptor D)
      → IsReady n (length reqs) a.plog
      → AllEvolve a.plog (run st cfg reqs a).plog
  unfolding run
  run-AllEvolve cfg [] a r = AllEvolve-same a.plog a.plog (λ i j. refl)
  run-AllEvolve cfg (req ∷ reqs) a r =
      let (r', ev) = dispatch-AllEvolve (length reqs) req.msg a r in
      let a' = (do_handle_msg st cfg req a).1 in
      let e = do_handle_msg-state cfg req a in
      AllEvolve-trans a.plog a'.plog _ (rw e ev) (run-AllEvolve cfg reqs a' (rw e r'))

  -- Once a cached entry is chosen, it is chosen with the same proposal id and value id after any
  -- sequence of requests, if the caches are valid and have room for one more entry per request.
  pub run-chosen :
      (cfg : Configure) (reqs : List PaxosRequest) (a : Acceptor D) (i j : ℕ) (x : Entry)
      (v : Proposal)
      → IsReady n (length reqs) a.plog
      → logged i j a.plog ≡ some x
      → x.accepted ≡ some v
      → v.status ≡ PaxosState.chosen
      → (y : Entry) × (w : Proposal) × (logged i j (run st cfg reqs a).plog ≡ some y)
        × (y.accepted ≡ some w)
        × (w.status ≡ PaxosState.chosen)
        × (w.pid ≡ v.pid)
        × (w.value_id ≡ v.value_id)
  run-chosen cfg reqs a i j x v r h g c =
      let (y, hy, ev) = run-AllEvolve cfg reqs a r i j x h in
      let (w, gw, keeps) = ev.accepted_stays v g in
      let (_, same, chosen) = keeps in (y, w, hy, gw, (chosen c).0, (chosen c).1, same (chosen c).1)
