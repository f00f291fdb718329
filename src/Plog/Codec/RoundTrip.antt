-- ===== src/Plog/Codec/RoundTrip.antt =====
-- What is read back from the bytes of an entry.
pub mod Fields
use quarrel.Prelude.{
  ℕ, ◌+◌, ◌*◌, ◌^◌, ◌-◌, ◌<◌, ◌≡◌, ◌∙◌, sym, refl, ap, List, [], ◌++◌, length, take, drop, Option,
  none, some, false, not, ltb, ◌==◌, arith, length-append, take_of_eq-length, take-append_length,
  drop-append_length,
}
use mathlib.Core.List.{append_assoc, append-nil}
use quarrel.Prelude.Words.{u32}
use quarrel.Ptype.{Proposal, proposal_header_sz, gen_dummy_proposal, alloc_proposal}
use quarrel.Ptype.ErrCode
use quarrel.Plog.Entry.{Entry}
use quarrel.Plog.Codec.Bytes.{put_le, get_le, limit, length-put_le, get_le-put_le, drop-put_le}
use quarrel.Plog.Codec.{
  encode_header, encode_proposal, decode_header, size_at, clone_at, stored_accepted,
  stored_promised, serialize_to, clone_both, unserialize_from,
}
use quarrel.Plog.Codec.RoundTrip.Fields.{
  IsFit, length-encode_proposal, drop-encode_proposal, size_at-encode_proposal,
  clone_at-encode_proposal, IsFit-dummy,
}

unserialize_steps :
    (from : List ℕ) (s1 s2 : ℕ) (e : Entry)
    → ltb (length from) 9 ≡ false
    → not (get_le 4 from == length from) ≡ false
    → size_at (drop 8 from) ≡ some s1
    → size_at (drop (proposal_header_sz + s1) (drop 8 from)) ≡ some s2
    → unserialize_from from e ≡ clone_both from s1 s2 e
unfolding unserialize_from
unserialize_steps from s1 s2 e a b c d = rw (a, b, c, d) refl

clone_steps :
    (from : List ℕ) (s1 s2 : ℕ) (p q : Proposal) (e : Entry)
    → not (u32 (s1 + s2) + 2 * proposal_header_sz == length from - 8) ≡ false
    → clone_at (drop 8 from) ≡ some p
    → clone_at (drop (proposal_header_sz + s1) (drop 8 from)) ≡ some q
    → clone_both from s1 s2 e ≡ some (ErrCode.ok, record e { accepted = some p; promised = some q })
unfolding clone_both
clone_steps from s1 s2 p q e a c d = rw (a, c, d) refl

-- Two proposals behind an entry's head.
abbrev pub total : Proposal → Proposal → ℕ
total p q = 8 + (proposal_header_sz + p.size) + (proposal_header_sz + q.size)

abbrev bytes : Proposal → Proposal → List ℕ
bytes p q =
    put_le 4 (total p q)
    ++ (put_le 4 0x11 ++ (encode_proposal p.size p ++ encode_proposal q.size q))

module _ (p q : Proposal) (f : IsFit p) (g : IsFit q) where
  length-bytes : length (bytes p q) ≡ total p q
  unfolding put_le
  length-bytes = omega (
    arith,
    length-append (encode_proposal p.size p) (encode_proposal q.size q),
    length-encode_proposal p f [],
    length-encode_proposal q g [],
  )

  raw-bytes : drop 8 (bytes p q) ≡ encode_proposal p.size p ++ encode_proposal q.size q
  unfolding put_le
  raw-bytes = refl

  tail-bytes :
      drop (proposal_header_sz + p.size) (drop 8 (bytes p q)) ≡ encode_proposal q.size q ++ []
  tail-bytes =
      ap (drop (proposal_header_sz + p.size)) raw-bytes
      ∙ drop-encode_proposal p f (encode_proposal q.size q)
      ∙ sym (append-nil (encode_proposal q.size q))

  unserialize_from-bytes :
      (e : Entry)
      → total p q < 2 ^ 32
      → unserialize_from (bytes p q) e
        ≡ some (ErrCode.ok, record e { accepted = some p; promised = some q })
  unserialize_from-bytes e fits =
      let n = length-bytes in
      let head =
        get_le-put_le 4 (total p q)
          (put_le 4 0x11 ++ (encode_proposal p.size p ++ encode_proposal q.size q)) (omega arith) in
      unserialize_steps (bytes p q) p.size q.size e (ground arith) (ground arith)
        (ap size_at raw-bytes ∙ size_at-encode_proposal p f (encode_proposal q.size q))
        (ap size_at tail-bytes ∙ size_at-encode_proposal q g [])
      ∙ clone_steps (bytes p q) p.size q.size p q e (ground arith)
          (ap clone_at raw-bytes ∙ clone_at-encode_proposal p f (encode_proposal q.size q))
          (ap clone_at tail-bytes ∙ clone_at-encode_proposal q g [])

-- The proposals of the entry fit.
pub record IsFitEntry (e : Entry) : Type 0 where
  pub accepted : (a : Proposal) → e.accepted ≡ some a → IsFit a
  pub promised : (q : Proposal) → e.promised ≡ some q → IsFit q

-- What a read gives back: a proposal that is missing comes back as the dummy, and so does the promise
-- of an entry with an accepted proposal.
unfoldable pub restored : Entry → Entry
restored e = record e {
  accepted = some (stored_accepted e).1;
  promised = some (stored_promised e).1;
}

dummy-size : gen_dummy_proposal.size ≡ 1
unfolding gen_dummy_proposal alloc_proposal
dummy-size = refl

-- A stored proposal with the size that goes with it.
abbrev Stored : ℕ × Proposal → Type 0
Stored s = (s.0 ≡ s.1.size) × IsFit s.1

put_in_for_none : Stored (1, gen_dummy_proposal)
put_in_for_none = (sym dummy-size, IsFit-dummy)

put_in_for_some :
    (o : Option Proposal)
    → ((a : Proposal) → o ≡ some a → IsFit a)
    → Stored (elim o [ none ↦ (1, gen_dummy_proposal) | some a ↦ (a.size, a) ])
put_in_for_some none h = put_in_for_none
put_in_for_some (some a) h = (refl, h a refl)

stored_promised_lem :
    (o u : Option Proposal)
    → ((a : Proposal) → u ≡ some a → IsFit a)
    → Stored (elim o [
      | some _ ↦ (1, gen_dummy_proposal)
      | none ↦ elim u [ none ↦ (1, gen_dummy_proposal) | some q ↦ (q.size, q) ]
    ])
stored_promised_lem none u h = put_in_for_some u h
stored_promised_lem (some a) u h = put_in_for_none

serialize_to_lem :
    (e : Entry)
    → Stored (stored_accepted e)
    → Stored (stored_promised e)
    → total (stored_accepted e).1 (stored_promised e).1 < 2 ^ 32
    → (serialize_to e).1 ≡ bytes (stored_accepted e).1 (stored_promised e).1
unfolding serialize_to
serialize_to_lem e (a, _) (q, _) fits =
    let t : u32 (
          8
          + (proposal_header_sz + (stored_accepted e).0)
          + (proposal_header_sz + (stored_promised e).0))
        ≡ total (stored_accepted e).1 (stored_promised e).1 =
      omega arith in
    rw (t, a, q) refl

-- If every field of an entry's proposals fits into its word, the payloads have the sizes that the
-- headers say, and the whole stays below 2 ^ 32 bytes, then the bytes of `SerializeTo` are read by
-- `UnserializeFrom`, into any entry, with no error and with no read past their end: the accepted
-- proposal, or the dummy if there was none, and the promise, or the dummy if there was none or if
-- there was an accepted proposal.
pub unserialize_from-serialize_to :
    (e to : Entry)
    → IsFitEntry e
    → total (stored_accepted e).1 (stored_promised e).1 < 2 ^ 32
    → unserialize_from (serialize_to e).1 to
      ≡ some (
        ErrCode.ok,
        record to { accepted = (restored e).accepted; promised = (restored e).promised },
      )
unfolding stored_accepted stored_promised restored
unserialize_from-serialize_to e to fit fits =
    let a = put_in_for_some e.accepted fit.accepted in
    let q = stored_promised_lem e.accepted e.promised fit.promised in
    ap (λ bs. unserialize_from bs to) (serialize_to_lem e a q fits)
    ∙ unserialize_from-bytes (stored_accepted e).1 (stored_promised e).1 a.1 q.1 to fits
