-- ===== src/Plog/EntryMng.antt =====
-- `EntryMng` of core/plog.h and core/plog.cpp: the log of one instance behind an LRU cache.
pub mod Recover
use quarrel.Prelude.{
  ℕ, ◌+◌, List, [], ◌∷◌, Option, none, some, Bool, ◌||◌, ◌&&◌, not, ltb, leb, ◌==◌, if◌then◌else◌,
}
use quarrel.Prelude.Int.{ℤ, is_zero}
use quarrel.Prelude.Words.{u64, all_ones}
use quarrel.Ptype.{Proposal, clone_proposal}
use quarrel.Ptype.ErrCode
use quarrel.LruMap
use quarrel.LruMap.{LruMap}
use quarrel.Plog.Entry
use quarrel.Plog.Entry.{Entry, new_entry}

-- `PlogMetaInfo`; the fields that no code reads are left out.
pub record PlogMetaInfo : Type 0 where
  pub pinst : ℕ
  pub last_committed : ℕ

-- The pure virtual functions, over what they store in. A subclass outside of the library
-- implements them. A load changes nothing that is stored.
pub record Storage (D : Type 0) : Type 0 where
  pub load_entry : D → ℕ → ℕ → Entry → ℤ × Entry
  pub save_entry : D → ℕ → ℕ → Entry → ℤ × D
  pub load_plog_meta_info : D → ℕ → ℤ × PlogMetaInfo
  pub batch_load_entry : D → ℕ → ℕ → ℕ → ℤ × List Entry

pub record EntryMng (D : Type 0) : Type 0 where
  pub pinst : ℕ
  pub max_committed_entry : ℕ
  pub max_continue_chosen_entry : ℕ
  pub first_valid_entry : ℕ  -- `all_ones`: empty, here and below
  pub max_in_used_entry : ℕ
  pub last_chosen_entry : ℕ
  pub first_unchosen_entry : ℕ
  pub global_max_chosen_entry : ℕ
  pub entries : LruMap Entry
  pub disk : D  -- the subclass's store

module _ {D : Type 0} where
  -- The constructor, at a cache of `entry_cache_num` entries.
  unfoldable pub init : ℕ → ℕ → D → EntryMng D
  init entry_cache_num pinst disk = record {
    pinst = pinst;
    max_committed_entry = 0;
    max_continue_chosen_entry = 0;
    first_valid_entry = all_ones;
    max_in_used_entry = all_ones;
    last_chosen_entry = all_ones;
    first_unchosen_entry = all_ones;
    global_max_chosen_entry = all_ones;
    entries = LruMap.init entry_cache_num;
    disk = disk;
  }

  unfoldable pub reset : EntryMng D → EntryMng D
  reset m = record m {
    entries = LruMap.clear m.entries;
    first_valid_entry = all_ones;
    last_chosen_entry = all_ones;
    max_in_used_entry = all_ones;
    first_unchosen_entry = all_ones;
    max_continue_chosen_entry = 0;
    global_max_chosen_entry = all_ones;
  }

  unfoldable pub set_global_max_chosen_entry : ℕ → EntryMng D → EntryMng D
  set_global_max_chosen_entry entry m =
      if not (m.global_max_chosen_entry == all_ones) && leb entry m.global_max_chosen_entry
      then m
      else record m { global_max_chosen_entry = entry }

  -- The counters after an entry was saved as chosen.
  unfoldable pub note_chosen : ℕ → EntryMng D → EntryMng D
  note_chosen entry m = record m {
    last_chosen_entry =
        if (m.last_chosen_entry == all_ones) || ltb m.last_chosen_entry entry
        then entry
        else m.last_chosen_entry;
    global_max_chosen_entry =
        if (m.global_max_chosen_entry == all_ones) || ltb m.global_max_chosen_entry entry
        then entry
        else m.global_max_chosen_entry;
  }

  -- A write through a pointer to a cached entry.
  abbrev pub write_entry : ℕ → Entry → EntryMng D → EntryMng D
  write_entry entry e m = record m { entries = LruMap.write_ptr entry e m.entries }

module _ {D : Type 0} (st : Storage D) where
  -- `GetEntry` once `GetPtr` has missed.
  unfoldable pub load : ℕ → EntryMng D → Option Entry × EntryMng D
  load entry m =
      let (ret, e) = st.load_entry m.disk m.pinst entry (new_entry m.pinst entry) in
      if is_zero ret
      then (some e, record m { entries = LruMap.put entry e m.entries })
      else (none, m)

  unfoldable pub get_entry : ℕ → EntryMng D → Option Entry × EntryMng D
  unfolding load
  get_entry entry m =
      let (ptr, entries) = LruMap.get_ptr entry m.entries in
      let m' = record m { entries = entries } in
      elim ptr [ some e ↦ (some e, m') | none ↦ load entry m' ]

  -- `CreateEntry` once `GetPtr` has missed. `val` stays a reference into the cache, so a load
  -- writes to the cached entry; its return code is only logged.
  unfoldable pub create_new : ℕ → EntryMng D → Entry × EntryMng D
  create_new entry m =
      let e = new_entry m.pinst entry in
      let m' = record m { entries = LruMap.put entry e m.entries } in
      if (m.max_in_used_entry == all_ones) || ltb m.max_in_used_entry entry
      then (let e' = (st.load_entry m.disk m.pinst entry e).1 in
          (e', write_entry entry e' (record m' { max_in_used_entry = entry })))
      else (e, m')

  unfoldable pub create_entry : ℕ → EntryMng D → Entry × EntryMng D
  unfolding create_new
  create_entry entry m =
      let (ptr, entries) = LruMap.get_ptr entry m.entries in
      let m' = record m { entries = entries } in
      elim ptr [ some e ↦ (e, m') | none ↦ create_new entry m' ]

  unfoldable pub get_entry_and_create_if_not_exist : ℕ → EntryMng D → Entry × EntryMng D
  get_entry_and_create_if_not_exist entry m =
      let (ptr, entries) = LruMap.get_ptr entry m.entries in
      let m' = record m { entries = entries } in
      elim ptr [ some e ↦ (e, m') | none ↦ create_entry entry m' ]

  unfoldable pub get_next_entry : Bool → EntryMng D → ℕ × EntryMng D
  get_next_entry create m =
      let ret : ℕ = if m.last_chosen_entry == all_ones then 0 else u64 (m.last_chosen_entry + 1) in
      if create then (ret, (create_entry ret m).1) else (ret, m)

  -- `SaveEntry` of an entry that was just written in the cache.
  unfoldable pub save : ℕ → Entry → EntryMng D → ℤ × EntryMng D
  save entry e m =
      let (ret, disk) = st.save_entry m.disk m.pinst entry e in
      (ret, record (write_entry entry e m) { disk = disk })

  unfoldable pub set_promised : Proposal → EntryMng D → ℤ × EntryMng D
  unfolding save
  set_promised p m =
      let (ent, m') = get_entry p.pentry m in
      elim ent [
        | none ↦ (ErrCode.entry_not_exist, m')
        | some e ↦ save p.pentry (Entry.set_promised (some (clone_proposal p)) e) m'
      ]

  unfoldable pub clear_promised : ℕ → EntryMng D → ℤ × EntryMng D
  unfolding save
  clear_promised entry m =
      let (ent, m') = get_entry entry m in
      elim ent [
        | none ↦ (ErrCode.plog_not_exist, m')
        | some e ↦ save entry (Entry.set_promised none e) m'
      ]

  unfoldable pub set_accepted : Proposal → EntryMng D → ℤ × EntryMng D
  unfolding save
  set_accepted p m =
      let (ent, m') = get_entry p.pentry m in
      elim ent [
        | none ↦ (ErrCode.entry_not_exist, m')
        | some e ↦ save p.pentry (Entry.set_accepted (some (clone_proposal p)) e) m'
      ]

  -- `SetChosen` once the entry was found.
  unfoldable pub choose : ℕ → Entry → EntryMng D → ℤ × EntryMng D
  unfolding save note_chosen
  choose entry e m =
      let (ret, e') = Entry.set_chosen e in
      if is_zero ret
      then (let (saved, m') = save entry e' m in
          if is_zero saved then (saved, note_chosen entry m') else (saved, m'))
      else (ret, m)

  unfoldable pub set_chosen : ℕ → EntryMng D → ℤ × EntryMng D
  unfolding choose
  set_chosen entry m =
      let (ent, m') = get_entry entry m in
      elim ent [ none ↦ (ErrCode.entry_not_exist, m') | some e ↦ choose entry e m' ]
