-- ===== src/Tests/Recovery.antt =====
-- The recovery from a store with two entries.
use quarrel.Prelude.{ℕ, ◌≡◌, List, [], ◌∷◌, some, leb, if◌then◌else◌, arith}
use quarrel.Prelude.Int.{pos, neg, is_zero}
use quarrel.Plog.Entry.{Entry, new_entry}
use quarrel.Plog.EntryMng
use quarrel.Plog.EntryMng.{EntryMng, Storage}
use quarrel.Plog.EntryMng.Recover.{load_all_from_disk}
use quarrel.Plog.EntryMng.Recover.Ends.{AllWithin, Holds, load_all_from_disk_ends}

abbrev batch : ℕ → List Entry
batch low =
    if leb low 3
    then new_entry 0 3 ∷ new_entry 0 5 ∷ []
    else if leb low 5
    then new_entry 0 5 ∷ []
    else []

abbrev store : Storage (Unit {0})
store = record {
  load_entry = λ d i e x. (neg 1, x);
  save_entry = λ d i e x. (pos 0, d);
  load_plog_meta_info = λ d i. (pos 0, record { pinst = i; last_committed = 2 });
  batch_load_entry = λ d i a b. (pos 0, batch a);
}

batch-AllWithin : (low : ℕ) → AllWithin low 5 (batch low)
unfolding new_entry
batch-AllWithin low = ground arith

store-Holds : Holds store tt 0 5
store-Holds = λ low up e. batch-AllWithin low

abbrev blank : EntryMng (Unit {0})
blank = EntryMng.init 8 0 tt

blank-Holds : Holds store blank.disk blank.pinst 5
unfolding EntryMng.init
blank-Holds = store-Holds

load_all_from_disk_ends_example :
    (m' : EntryMng (Unit {0})) × (load_all_from_disk store 6 blank
      ≡ some (is_zero (store.load_plog_meta_info blank.disk blank.pinst).0, m'))
load_all_from_disk_ends_example =
    load_all_from_disk_ends store 6 5 blank (omega arith) blank-Holds (omega arith)
