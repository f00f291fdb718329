-- ===== src/Plog/Cache/Logs.antt =====
-- The operations of `PlogMng`, each as a write of one entry of one instance.
use quarrel.Prelude.{ℕ, suc, ◌<◌, ◌≡◌, refl, none, some, arith}
use quarrel.Ptype.{Proposal, clone_proposal}
use quarrel.Ptype.PaxosState
use quarrel.Plog.Entry
use quarrel.Plog.Entry.{Entry}
use quarrel.Plog.EntryMng
use quarrel.Plog.EntryMng.{EntryMng, Storage, write_entry}
use quarrel.Plog.PlogMng
use quarrel.Plog.PlogMng.{PlogMng, on_mng, entry_mng}
use quarrel.Plog.Cache.{
  size, write_entry-Writes, set_promised-Writes, set_accepted-Writes, clear_promised-Writes,
}
use quarrel.Plog.Cache.Create.{create-Writes}
use quarrel.Plog.Cache.Choose.{with_status, set_chosen-Writes}
use quarrel.Plog.Cache.Managers.{logged, IsReady, Logs, on_mng-Logs, on_mng-quiet}

module _ {D : Type 0} (st : Storage D) (n k : ℕ) (pos : 0 < n) (s : PlogMng D) where
  -- With managers whose caches are valid and have room for `k` + 1 more entries, the entry that
  -- `GetEntryAndCreateIfNotExist` gives is cached afterwards, no other entry of any instance changes,
  -- room for `k` is left, and an entry that was cached before is the one that is given.
  pub create-Logs :
      (p e : ℕ)
      → IsReady n (suc k) s
      → let (x, s') = PlogMng.get_entry_and_create_if_not_exist st p e s in
        Logs n k p e x s s' × ((w : Entry) → logged p e s ≡ some w → x ≡ w)
  unfolding PlogMng.get_entry_and_create_if_not_exist on_mng
  create-Logs p e r =
      let (w, size, old, _) =
        create-Writes st e (entry_mng p s) (r.valid p) (omega (arith, r.room p)) in
      (
        on_mng-Logs n (suc k) k p e _ (EntryMng.get_entry_and_create_if_not_exist st e) s pos r w
            (omega (arith, size)) (omega arith),
        old,
      )

  pub set_promised-Logs :
      (p : Proposal) (w : Entry)
      → IsReady n k s
      → logged p.pinst p.pentry s ≡ some w
      → Logs n k p.pinst p.pentry
          (Entry.set_promised (some (clone_proposal p)) w)
          s
          (PlogMng.set_promised st p s).1
  unfolding PlogMng.set_promised
  set_promised-Logs p w r h =
      let a = set_promised-Writes st p w (entry_mng p.pinst s) (r.valid p.pinst) h in
      on_mng-Logs n k k _ _ _ _ s pos r a.0 (omega (arith, a.1)) (omega arith)

  -- With managers whose caches are valid, `SetAccepted` of a cached entry puts a copy of the proposal
  -- there as accepted, leaves its promise and every other entry, and uses no room up, whether or not
  -- the store saved it.
  pub set_accepted-Logs :
      (p : Proposal) (w : Entry)
      → IsReady n k s
      → logged p.pinst p.pentry s ≡ some w
      → Logs n k p.pinst p.pentry
          (Entry.set_accepted (some (clone_proposal p)) w)
          s
          (PlogMng.set_accepted st p s).1
  unfolding PlogMng.set_accepted
  set_accepted-Logs p w r h =
      let a = set_accepted-Writes st p w (entry_mng p.pinst s) (r.valid p.pinst) h in
      on_mng-Logs n k k _ _ _ _ s pos r a.0 (omega (arith, a.1)) (omega arith)

  pub clear_promised-Logs :
      (p e : ℕ) (w : Entry)
      → IsReady n k s
      → logged p e s ≡ some w
      → Logs n k p e (Entry.set_promised none w) s (PlogMng.clear_promised st p e s).1
  unfolding PlogMng.clear_promised
  clear_promised-Logs p e w r h =
      let a = clear_promised-Writes st e w (entry_mng p s) (r.valid p) h in
      on_mng-Logs n k k _ _ _ _ s pos r a.0 (omega (arith, a.1)) (omega arith)

  -- With managers whose caches are valid, `SetChosen` of a cached entry with an accepted proposal sets
  -- the status of that proposal to chosen, leaves the rest of the entry and every other entry, and
  -- uses no room up, whether or not the store saved it.
  pub set_chosen-Logs :
      (p e : ℕ) (w : Entry) (a : Proposal)
      → IsReady n k s
      → logged p e s ≡ some w
      → w.accepted ≡ some a
      → Logs n k p e (with_status w a PaxosState.chosen) s (PlogMng.set_chosen st p e s).1
  unfolding PlogMng.set_chosen
  set_chosen-Logs p e w a r h g =
      let b = set_chosen-Writes st e w a (entry_mng p s) (r.valid p) h g in
      on_mng-Logs n k k _ _ _ _ s pos r b.0 (omega (arith, b.1)) (omega arith)

  -- A write to a cached entry through a reference.
  pub write_entry-Logs :
      (p e : ℕ) (x w : Entry)
      → IsReady n k s
      → logged p e s ≡ some w
      → Logs n k p e x s (on_mng {R = Unit {0}} p (λ m. (tt, write_entry e x m)) s).1
  write_entry-Logs p e x w r h =
      let a = write_entry-Writes e x w (entry_mng p s) (r.valid p) h in
      on_mng-Logs n k k p e x (λ m. (tt, write_entry e x m)) s pos r a.0 (omega (arith, a.1))
        (omega arith)

  pub set_global_quiet :
      (p e : ℕ)
      → IsReady n k s
      → IsReady n k (PlogMng.set_global_max_chosen_entry p e s)
        × ((i j : ℕ) → logged i j (PlogMng.set_global_max_chosen_entry p e s) ≡ logged i j s)
  unfolding PlogMng.set_global_max_chosen_entry EntryMng.set_global_max_chosen_entry
  set_global_quiet p e r = on_mng-quiet n k p _ s pos r (ground arith)

  pub read_quiet :
      {R : Type 0} (p : ℕ) (f : EntryMng D → R)
      → IsReady n k s
      → IsReady n k (on_mng p (λ m. (f m, m)) s).1
        × ((i j : ℕ) → logged i j (on_mng p (λ m. (f m, m)) s).1 ≡ logged i j s)
  read_quiet p f r = on_mng-quiet n k p (λ m. (f m, m)) s pos r refl
