-- ===== src/Plog/Cache.antt =====
-- What each operation of `EntryMng` does to the cached entries, one lemma to an operation.
pub mod Create
pub mod Managers
pub mod Choose
pub mod Logs
use quarrel.Prelude.{
  ℕ, zero, suc, ◌+◌, ◌≤◌, ◌<◌, ◌≡◌, ◌≢◌, refl, sym, ap, ◌∙◌, List, [], ◌∷◌, Option, none, some,
  length, Bool, true, false, ◌==◌, if◌then◌else◌, arith, Option-cases, Bool-cases, inl, inr, ltb,
  ◌||◌, ==_refl,
}
use native.Mathlib.Decide.{ℕ_discrete}
use quarrel.Prelude.Int.{ℤ, is_zero}
use quarrel.Prelude.Assoc.{lookup}
use quarrel.Prelude.Words.{all_ones}
use quarrel.Ptype.{Proposal, clone_proposal}
use quarrel.LruMap
use quarrel.LruMap.Laws
use quarrel.LruMap.Laws.{contents}
use quarrel.LruMap.Laws.Put.{put-IsValid, max_size-put}
use quarrel.LruMap.Laws.Reads.{
  get_ptr-lookup, get_ptr-IsValid, write_ptr_lem, max_size-get_ptr, max_size-write_ptr,
}
use quarrel.LruMap.Laws.Lookup.{
  lookup-get_ptr, lookup-write_ptr, lookup-put, length-put, length-get_ptr, length-write_ptr,
}
use quarrel.Plog.Entry
use quarrel.Plog.Entry.{Entry, new_entry}
use quarrel.Plog.EntryMng.{
  EntryMng, Storage, write_entry, get_entry, create_new, create_entry,
  get_entry_and_create_if_not_exist, save, set_promised, clear_promised, set_accepted, note_chosen,
  choose, set_chosen,
}

abbrev pub cached : {D : Type 0} → ℕ → EntryMng D → Option Entry
cached e m = lookup e (contents m.entries)

abbrev pub size : {D : Type 0} → EntryMng D → ℕ
size m = length (contents m.entries)

module _ {D : Type 0} where
  -- The manager after a use of the cache.
  abbrev pub used : ℕ → EntryMng D → EntryMng D
  used e m = record m { entries = (LruMap.get_ptr e m.entries).1 }

  -- A later state of a manager with the entry of one key written.
  pub record Writes (e : ℕ) (x : Entry) (m m' : EntryMng D) : Type 0 where
    pub valid : Laws.IsValid m'.entries
    pub same_max : m'.entries.max_size ≡ m.entries.max_size
    pub reads : (j : ℕ) → cached j m' ≡ (if e == j then some x else cached j m)

  pub write_entry-Writes :
      (e : ℕ) (x w : Entry) (m : EntryMng D)
      → Laws.IsValid m.entries
      → cached e m ≡ some w
      → Writes e x m (write_entry e x m) × (size (write_entry e x m) ≡ size m)
  write_entry-Writes e x w m v h = (
    record {
      valid = (write_ptr_lem e x m.entries v).1;
      same_max = max_size-write_ptr e x m.entries;
      reads = λ j. lookup-write_ptr e j x w m.entries v h;
    },
    length-write_ptr e x m.entries v,
  )

module _ {D : Type 0} (st : Storage D) where
  -- `SaveEntry` of an entry that is cached: the return code is the store's.
  pub save-Writes :
      (e : ℕ) (x w : Entry) (m : EntryMng D)
      → Laws.IsValid m.entries
      → cached e m ≡ some w
      → Writes e x m (save st e x m).1
        × (size (save st e x m).1 ≡ size m)
        × ((save st e x m).0 ≡ (st.save_entry m.disk m.pinst e x).0)
        × ((save st e x m).1.last_chosen_entry ≡ m.last_chosen_entry)
  unfolding save
  save-Writes e x w m v h =
      let (a, b) = write_entry-Writes e x w m v h in
      (record { valid = a.valid; same_max = a.same_max; reads = a.reads }, b, refl, refl)

  pub get_entry_hit :
      (e : ℕ) (w : Entry) (m : EntryMng D)
      → Laws.IsValid m.entries
      → cached e m ≡ some w
      → get_entry st e m ≡ (some w, record m { entries = (LruMap.get_ptr e m.entries).1 })
  unfolding get_entry
  get_entry_hit e w m v h = ground (arith, (get_ptr-lookup e m.entries v).0)

  pub save-used :
      (e : ℕ) (x w : Entry) (m : EntryMng D)
      → Laws.IsValid m.entries
      → cached e m ≡ some w
      → Writes e x m (save st e x (used e m)).1
        × (size (save st e x (used e m)).1 ≡ size m)
        × ((save st e x (used e m)).0 ≡ (st.save_entry m.disk m.pinst e x).0)
        × ((save st e x (used e m)).1.last_chosen_entry ≡ m.last_chosen_entry)
  save-used e x w m v h =
      let u = get_ptr-IsValid e m.entries v in
      let (a, b, c, d) = save-Writes e x w (used e m) u (lookup-get_ptr e e m.entries v ∙ h) in
      (
        record {
          valid = a.valid;
          same_max = a.same_max ∙ max_size-get_ptr e m.entries;
          reads = λ j.
              a.reads j ∙ ap (λ o. if e == j then some x else o) (lookup-get_ptr e j m.entries v);
        },
        b ∙ length-get_ptr e m.entries v,
        c,
        d,
      )

  set_promised_hit :
      (p : Proposal) (w : Entry) (m : EntryMng D)
      → Laws.IsValid m.entries
      → cached p.pentry m ≡ some w
      → set_promised st p m
        ≡ save st p.pentry (Entry.set_promised (some (clone_proposal p)) w) (used p.pentry m)
  unfolding set_promised
  set_promised_hit p w m v h = ground (arith, get_entry_hit p.pentry w m v h)

  set_accepted_hit :
      (p : Proposal) (w : Entry) (m : EntryMng D)
      → Laws.IsValid m.entries
      → cached p.pentry m ≡ some w
      → set_accepted st p m
        ≡ save st p.pentry (Entry.set_accepted (some (clone_proposal p)) w) (used p.pentry m)
  unfolding set_accepted
  set_accepted_hit p w m v h = ground (arith, get_entry_hit p.pentry w m v h)

  clear_promised_hit :
      (e : ℕ) (w : Entry) (m : EntryMng D)
      → Laws.IsValid m.entries
      → cached e m ≡ some w
      → clear_promised st e m ≡ save st e (Entry.set_promised none w) (used e m)
  unfolding clear_promised
  clear_promised_hit e w m v h = ground (arith, get_entry_hit e w m v h)

  -- What the three writers of an entry do, when it is cached.
  pub set_promised-Writes :
      (p : Proposal) (w : Entry) (m : EntryMng D)
      → Laws.IsValid m.entries
      → cached p.pentry m ≡ some w
      → let x = Entry.set_promised (some (clone_proposal p)) w in
        Writes p.pentry x m (set_promised st p m).1
        × (size (set_promised st p m).1 ≡ size m)
        × ((set_promised st p m).0 ≡ (st.save_entry m.disk m.pinst p.pentry x).0)
        × ((set_promised st p m).1.last_chosen_entry ≡ m.last_chosen_entry)
  set_promised-Writes p w m v h = rw (set_promised_hit p w m v h) (save-used p.pentry _ w m v h)

  pub set_accepted-Writes :
      (p : Proposal) (w : Entry) (m : EntryMng D)
      → Laws.IsValid m.entries
      → cached p.pentry m ≡ some w
      → let x = Entry.set_accepted (some (clone_proposal p)) w in
        Writes p.pentry x m (set_accepted st p m).1
        × (size (set_accepted st p m).1 ≡ size m)
        × ((set_accepted st p m).0 ≡ (st.save_entry m.disk m.pinst p.pentry x).0)
        × ((set_accepted st p m).1.last_chosen_entry ≡ m.last_chosen_entry)
  set_accepted-Writes p w m v h = rw (set_accepted_hit p w m v h) (save-used p.pentry _ w m v h)

  pub clear_promised-Writes :
      (e : ℕ) (w : Entry) (m : EntryMng D)
      → Laws.IsValid m.entries
      → cached e m ≡ some w
      → Writes e (Entry.set_promised none w) m (clear_promised st e m).1
        × (size (clear_promised st e m).1 ≡ size m)
        × ((clear_promised st e m).1.last_chosen_entry ≡ m.last_chosen_entry)
  clear_promised-Writes e w m v h =
      rw (clear_promised_hit e w m v h)
        (let (a, b, c, d) = save-used e (Entry.set_promised none w) w m v h in (a, b, d))
