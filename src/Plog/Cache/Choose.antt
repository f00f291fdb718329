-- ===== src/Plog/Cache/Choose.antt =====
-- `EntryMng::SetChosen`.
use quarrel.Prelude.{ℕ, ◌≡◌, some, if◌then◌else◌, arith, Bool-cases, inl, inr}
use quarrel.Prelude.Int.{is_zero}
use quarrel.Ptype.{Proposal}
use quarrel.LruMap.Laws
use quarrel.LruMap.Laws.{contents}
use quarrel.Plog.Entry
use quarrel.Plog.Entry.{Entry, new_entry}
use quarrel.Plog.EntryMng.{EntryMng, Storage, save, note_chosen, choose, set_chosen}
use quarrel.Ptype.PaxosState
use quarrel.Plog.Cache.{cached, size, Writes, used, save-used, get_entry_hit}

-- The entry of an accepted proposal, with its status set.
abbrev pub with_status : Entry → Proposal → ℕ → Entry
with_status w a s = record w { accepted = some (record a { status = s }) }

noted-Writes :
    {D : Type 0} (e : ℕ) (x : Entry) (m m' : EntryMng D)
    → Writes e x m m'
    → Writes e x m (note_chosen e m')
unfolding note_chosen
noted-Writes e x m m' w = record { valid = w.valid; same_max = w.same_max; reads = w.reads }

module _ {D : Type 0} (st : Storage D) where
  choose_eq :
      (e : ℕ) (w : Entry) (a : Proposal) (m : EntryMng D)
      → w.accepted ≡ some a
      → choose st e w m ≡ (
          let (saved, m') = save st e (with_status w a PaxosState.chosen) m in
          if is_zero saved then (saved, note_chosen e m') else (saved, m'))
  unfolding choose Entry.set_chosen
  choose_eq e w a m h = ground arith

  set_chosen_hit :
      (e : ℕ) (w : Entry) (a : Proposal) (m : EntryMng D)
      → Laws.IsValid m.entries
      → cached e m ≡ some w
      → set_chosen st e m ≡ choose st e w (used e m)
  unfolding set_chosen
  set_chosen_hit e w a m v h = ground (arith, get_entry_hit st e w m v h)

  -- `SetChosen` of a cached entry with an accepted proposal: the cached status is chosen whether or
  -- not the store saved it.
  pub set_chosen-Writes :
      (e : ℕ) (w : Entry) (a : Proposal) (m : EntryMng D)
      → Laws.IsValid m.entries
      → cached e m ≡ some w
      → w.accepted ≡ some a
      → Writes e (with_status w a PaxosState.chosen) m (set_chosen st e m).1
        × (size (set_chosen st e m).1 ≡ size m)
        × ((set_chosen st e m).0
            ≡ (st.save_entry m.disk m.pinst e (with_status w a PaxosState.chosen)).0)
  unfolding note_chosen save
  set_chosen-Writes e w a m v h k =
      let (b, c, d, _) = save-used st e (with_status w a PaxosState.chosen) w m v h in
      rw (set_chosen_hit e w a m v h, choose_eq e w a (used e m) k)
        (elim (Bool-cases (is_zero (save st e (with_status w a PaxosState.chosen) (used e m)).0)) [
          | inl z ↦ rw z (noted-Writes e _ m _ b, c, d)
          | inr z ↦ rw z (b, c, d)
        ])
