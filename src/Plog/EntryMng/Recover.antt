-- ===== src/Plog/EntryMng/Recover.antt =====
-- `RecoverRange` and `LoadAllFromDisk` of core/plog.cpp.
pub mod Ends
use quarrel.Prelude.{
  ℕ, zero, suc, ◌+◌, List, [], ◌∷◌, Option, none, some, Bool, true, false, ltb, leb, ◌==◌,
  if◌then◌else◌,
}
use quarrel.Prelude.Int.{is_zero}
use quarrel.Prelude.Words.{u64, all_ones}
use quarrel.Ptype.PaxosState
use quarrel.LruMap
use quarrel.Plog.Entry
use quarrel.Plog.Entry.{Entry}
use quarrel.Plog.EntryMng.{EntryMng, Storage}

module _ {D : Type 0} where
  -- The counters that depend on the entry's status.
  unfoldable pub count_status : Entry → EntryMng D → EntryMng D
  count_status e m =
      if Entry.status e == PaxosState.chosen
      then record m {
        last_chosen_entry =
            if ltb m.last_chosen_entry e.entry then e.entry else m.last_chosen_entry;
        max_continue_chosen_entry =
            if e.entry == u64 (m.max_continue_chosen_entry + 1)
            then u64 (m.max_continue_chosen_entry + 1)
            else m.max_continue_chosen_entry;
      }
      else record m {
        first_unchosen_entry =
            if ltb e.entry m.first_unchosen_entry then e.entry else m.first_unchosen_entry;
      }

  -- The body of the inner loop: the next start, and the manager.
  unfoldable pub recover_entry : Entry → ℕ × EntryMng D → ℕ × EntryMng D
  unfolding count_status
  recover_entry e (start, m) =
      let m' = count_status e m in
      (
        if leb start e.entry then u64 (e.entry + 1) else start,
        record m' {
          first_valid_entry =
              if ltb e.entry m'.first_valid_entry then e.entry else m'.first_valid_entry;
          max_in_used_entry =
              if ltb m'.max_in_used_entry e.entry then e.entry else m'.max_in_used_entry;
          entries = LruMap.put e.entry e m'.entries;
        },
      )

  unfoldable pub recover_batch : List Entry → ℕ × EntryMng D → ℕ × EntryMng D
  recover_batch [] s = s
  recover_batch (e ∷ es) s = recover_batch es (recover_entry e s)

module _ {D : Type 0} (st : Storage D) where
  -- The outer loop, on fuel; `none` means that the fuel ran out.
  unfoldable pub recover_loop : ℕ → ℕ → ℕ → EntryMng D → Option (EntryMng D)
  recover_loop zero start_entry end_entry m = none
  recover_loop (suc fuel) start_entry end_entry m =
      let (ret, es) = st.batch_load_entry m.disk m.pinst start_entry end_entry in
      let (start', m') = recover_batch es (start_entry, m) in
      let rest = recover_loop fuel start' end_entry m' in
      if is_zero ret then elim es [ [] ↦ some m | _ ∷ _ ↦ rest ] else some m

  -- The value is always `kErrCode_OK`, which as the `bool` that it returns is false.
  unfoldable pub recover_range : ℕ → ℕ → ℕ → EntryMng D → Option (Bool × EntryMng D)
  recover_range fuel start_entry end_entry m = elim (recover_loop fuel start_entry end_entry m) [
    | none ↦ none
    | some m' ↦ some (
      false,
      if ltb m'.global_max_chosen_entry m'.last_chosen_entry
          then record m' { global_max_chosen_entry = m'.last_chosen_entry }
          else m',
    )
  ]

  unfoldable pub load_all_from_disk : ℕ → EntryMng D → Option (Bool × EntryMng D)
  load_all_from_disk fuel m =
      let (ret, meta) = st.load_plog_meta_info m.disk m.pinst in
      if is_zero ret
      then elim (recover_range fuel 1 all_ones (record m {
        max_in_used_entry = 0;
        last_chosen_entry = 0;
        first_valid_entry = all_ones;
        first_unchosen_entry = all_ones;
        max_committed_entry = meta.last_committed;
        max_continue_chosen_entry = meta.last_committed;
        global_max_chosen_entry = 0;
      })) [ none ↦ none | some (_, m') ↦ some (true, m') ]
      else some (false, m)
