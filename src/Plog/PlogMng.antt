-- ===== src/Plog/PlogMng.antt =====
-- `PlogMng` of core/plog.h and core/plog.cpp: the logs of all instances of a server.
use quarrel.Prelude.{
  ℕ, zero, suc, ◌+◌, ◌%◌, List, [], ◌∷◌, Option, none, some, Bool, false, ◌&&◌, ltb, ◌==◌,
  if◌then◌else◌, length, get_elem?, set,
}
use quarrel.Prelude.Int.{ℤ}
use quarrel.Prelude.Words.{all_ones}
use quarrel.Ptype.{Proposal}
use quarrel.Plog.Entry.{Entry}
use quarrel.Plog.EntryMng
use quarrel.Plog.EntryMng.{EntryMng, Storage}

-- `creator_` is a function that the user sets; `none` is a null pointer.
pub record PlogMng (D : Type 0) : Type 0 where
  pub creator : ℕ → EntryMng D
  pub mngs : List (Option (EntryMng D))

module _ {D : Type 0} where
  -- The managers of instances `i` to `i + n - 1`.
  create_from : (ℕ → EntryMng D) → ℕ → ℕ → List (Option (EntryMng D))
  create_from creator i zero = []
  create_from creator i (suc n) = some (creator i) ∷ create_from creator (i + 1) n

  unfoldable pub init_plog : ℕ → PlogMng D → PlogMng D
  unfolding create_from
  init_plog plog_inst_num s = record s { mngs = create_from s.creator 0 plog_inst_num }

  -- `pinst % mngs_.size()`. Before `InitPlog` this divides by zero in C++.
  abbrev pub slot : PlogMng D → ℕ → ℕ
  slot s pinst = pinst % length s.mngs

  unfoldable pub mng_at : ℕ → PlogMng D → EntryMng D
  mng_at k s = elim (get_elem? s.mngs k) [
    | none ↦ s.creator k
    | some mng ↦ elim mng [ none ↦ s.creator k | some m ↦ m ]
  ]

  -- `GetEntryMngAndCreateIfNotExist`, as the value of the manager.
  unfoldable pub entry_mng : ℕ → PlogMng D → EntryMng D
  unfolding mng_at
  entry_mng pinst s = mng_at (slot s pinst) s

  -- A call of a method through the pointer to the manager.
  unfoldable pub on_mng :
      {R : Type 0} → ℕ → (EntryMng D → R × EntryMng D) → PlogMng D → R × PlogMng D
  on_mng pinst f s =
      let (r, m) = f (entry_mng pinst s) in
      (r, record s { mngs = set s.mngs (slot s pinst) (some m) })

  unfoldable pub get_max_chosen_entry : ℕ → PlogMng D → ℕ × PlogMng D
  get_max_chosen_entry pinst = on_mng pinst (λ m. (m.last_chosen_entry, m))

  unfoldable pub set_global_max_chosen_entry : ℕ → ℕ → PlogMng D → PlogMng D
  set_global_max_chosen_entry pinst entry s =
      (on_mng pinst (λ m. (tt, EntryMng.set_global_max_chosen_entry entry m)) s).1

  unfoldable pub get_global_max_chosen_entry : ℕ → PlogMng D → ℕ × PlogMng D
  get_global_max_chosen_entry pinst = on_mng pinst (λ m. (m.global_max_chosen_entry, m))

  unfoldable pub get_max_committed_entry : ℕ → PlogMng D → ℕ × PlogMng D
  get_max_committed_entry pinst = on_mng pinst (λ m. (m.max_committed_entry, m))

  -- The `assert` that the maximum in use is not below the last chosen one is left out.
  unfoldable pub is_local_chosen_lag_behind : ℕ → PlogMng D → Bool × PlogMng D
  is_local_chosen_lag_behind pinst = on_mng pinst (λ m. (
    if (m.max_in_used_entry == all_ones) && (m.last_chosen_entry == all_ones)
        then false
        else ltb m.last_chosen_entry m.global_max_chosen_entry,
    m,
  ))

module _ {D : Type 0} (st : Storage D) where
  unfoldable pub get_entry_and_create_if_not_exist : ℕ → ℕ → PlogMng D → Entry × PlogMng D
  get_entry_and_create_if_not_exist pinst entry =
      on_mng pinst (EntryMng.get_entry_and_create_if_not_exist st entry)

  unfoldable pub set_promised : Proposal → PlogMng D → ℤ × PlogMng D
  set_promised p = on_mng p.pinst (EntryMng.set_promised st p)

  unfoldable pub clear_promised : ℕ → ℕ → PlogMng D → ℤ × PlogMng D
  clear_promised pinst entry = on_mng pinst (EntryMng.clear_promised st entry)

  unfoldable pub set_accepted : Proposal → PlogMng D → ℤ × PlogMng D
  set_accepted p = on_mng p.pinst (EntryMng.set_accepted st p)

  unfoldable pub set_chosen : ℕ → ℕ → PlogMng D → ℤ × PlogMng D
  set_chosen pinst entry = on_mng pinst (EntryMng.set_chosen st entry)

  unfoldable pub get_next_entry : ℕ → Bool → PlogMng D → ℕ × PlogMng D
  get_next_entry pinst create = on_mng pinst (EntryMng.get_next_entry st create)
