-- ===== src/Acceptor/Check.antt =====
-- `CheckLocalAndMayTriggerCatchup`, and what it does to the log.
use quarrel.Prelude.{ℕ, ◌<◌, ◌≡◌, ◌⊎◌, inl, inr, refl, arith}
use quarrel.Ptype.{Proposal, PaxosMsg}
use quarrel.Plog.PlogMng
use quarrel.Plog.PlogMng.{PlogMng}
use quarrel.Plog.EntryMng.{Storage}
use quarrel.Plog.Cache.Managers.{IsReady}
use quarrel.Plog.Cache.Logs.{set_global_quiet}
use quarrel.Acceptor.Ballots.{AllEvolve, AllEvolve-same}
use quarrel.Acceptor.Defs.{
  Acceptor, add_msg, trigger_local_catchup, check_local_and_may_trigger_catchup,
}

module _ {D : Type 0} where
  add_msg-plog : (m : PaxosMsg) (cb : ℕ) (a : Acceptor D) → (add_msg m cb a).1.plog ≡ a.plog
  unfolding add_msg
  add_msg-plog m cb a = ground arith

  trigger-plog : (p e : ℕ) (a : Acceptor D) → (trigger_local_catchup p e a).plog ≡ a.plog
  unfolding trigger_local_catchup
  trigger-plog p e a = ground arith

  check-plog :
      (pp : Proposal) (a : Acceptor D)
      → ((check_local_and_may_trigger_catchup pp a).1.plog ≡ a.plog)
        ⊎ ((check_local_and_may_trigger_catchup pp a).1.plog
            ≡ PlogMng.set_global_max_chosen_entry pp.pinst pp.last_chosen a.plog)
  unfolding check_local_and_may_trigger_catchup
  check-plog pp a = ground arith

  pub check_quiet :
      (st : Storage D) (n k : ℕ) (pp : Proposal) (a : Acceptor D)
      → 0 < n
      → IsReady n k a.plog
      → IsReady n k (check_local_and_may_trigger_catchup pp a).1.plog
        × AllEvolve a.plog (check_local_and_may_trigger_catchup pp a).1.plog
  check_quiet st n k pp a pos r = elim (check-plog pp a) [
    | inl e ↦ rw e (r, AllEvolve-same a.plog a.plog (λ i j. refl))
    | inr e ↦
        let q = set_global_quiet st n k pos a.plog pp.pinst pp.last_chosen r in
        rw e (q.0, AllEvolve-same a.plog _ q.1)
  ]
