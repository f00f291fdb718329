-- ===== src/Tests/Entries.antt =====
-- Entries as bytes.
use quarrel.Prelude.{ℕ, subst, ◌≡◌, refl, ◌∷◌, [], List, none, some, ◌++◌, replicate, arith}
use quarrel.Ptype.{Proposal, alloc_proposal, gen_dummy_proposal}
use mathlib.Core.Option.{some-injective}
use quarrel.Ptype.ErrCode
use quarrel.Plog.Entry.{Entry, new_entry}
use quarrel.Plog.Codec.{serialize_to, unserialize_from, stored_accepted, stored_promised}
use quarrel.Plog.Codec.Bytes.{put_le, get_le}
use quarrel.Plog.Codec.RoundTrip.Fields.{IsFit}
use quarrel.Plog.Codec.RoundTrip.{IsFitEntry, restored, unserialize_from-serialize_to}
use quarrel.Plog.Codec.Short.{unserialize_from_past_end}

abbrev promise : Proposal
promise = record (alloc_proposal 0) {
  pid = 300;
  pinst = 2;
  pentry = 70000;
  size = 2;
  payload = 8 ∷ 9 ∷ [];
}

abbrev promised_only : Entry
promised_only = record { pinst = 2; entry = 70000; accepted = none; promised = some promise }

promise-IsFit : IsFit promise
unfolding alloc_proposal
promise-IsFit = record {
  pid = omega arith;
  term = omega arith;
  pinst = omega arith;
  pentry = omega arith;
  last_chosen = omega arith;
  last_chosen_from = omega arith;
  proposer = omega arith;
  size = omega arith;
  status = omega arith;
  opaque = omega arith;
  value_id = omega arith;
  sized = refl;
}

promised_only-IsFitEntry : IsFitEntry promised_only
promised_only-IsFitEntry = record {
  accepted = λ a h. cc;
  promised = λ q h. subst IsFit (some-injective promise q h) promise-IsFit;
}

unserialize_from-serialize_to_example :
    unserialize_from (serialize_to promised_only).1 (new_entry 2 70000)
    ≡ some (
      ErrCode.ok,
      record (new_entry 2 70000) {
        accepted = (restored promised_only).accepted;
        promised = (restored promised_only).promised;
      },
    )
unfolding stored_accepted stored_promised gen_dummy_proposal alloc_proposal
unserialize_from-serialize_to_example =
    unserialize_from-serialize_to promised_only (new_entry 2 70000) promised_only-IsFitEntry
      (omega arith)

-- No proposal was accepted, and yet one comes back.
dummy_comes_back : (restored promised_only).accepted ≡ some gen_dummy_proposal
unfolding restored stored_accepted
dummy_comes_back = refl

abbrev short : List ℕ
short = put_le 4 9 ++ replicate 5 0

unserialize_from_past_end_example : unserialize_from short (new_entry 0 1) ≡ none
unfolding put_le get_le
unserialize_from_past_end_example =
    unserialize_from_past_end short (new_entry 0 1) (omega arith) (omega arith) refl
