-- ===== src/Plog/Codec/RoundTrip/Fields.antt =====
-- The bytes of one proposal are read back.
use quarrel.Prelude.{
  ℕ, ◌+◌, ◌<◌, ◌≡◌, ◌∙◌, sym, refl, ap, List, [], ◌++◌, length, take, drop, some, false, ltb, arith,
  length-append, take_of_eq-length, take-append_length, drop-append_length,
}
use mathlib.Core.List.{append_assoc}
use quarrel.Ptype.{Proposal, proposal_header_sz, gen_dummy_proposal, alloc_proposal}
use quarrel.Plog.Codec.Bytes.{put_le, limit, length-put_le, get_le-put_le, drop-put_le}
use quarrel.Plog.Codec.{encode_header, encode_proposal, decode_header, size_at, clone_at}

-- The fields fit into their words, and the payload has the size that the header says.
pub record IsFit (p : Proposal) : Type 0 where
  pub pid : p.pid < limit 8
  pub term : p.term < limit 8
  pub pinst : p.pinst < limit 8
  pub pentry : p.pentry < limit 8
  pub last_chosen : p.last_chosen < limit 8
  pub last_chosen_from : p.last_chosen_from < limit 2
  pub proposer : p.proposer < limit 2
  pub size : p.size < limit 4
  pub status : p.status < limit 4
  pub opaque : p.opaque < limit 8
  pub value_id : p.value_id < limit 8
  pub sized : length p.payload ≡ p.size

length-encode_header : (p : Proposal) → length (encode_header p) ≡ proposal_header_sz
unfolding encode_header
length-encode_header p = simp (length-append, length-put_le) refl

abbrev blank : Proposal → Proposal
blank p = record p { payload = [] }

-- The fields, one after the other, with their bytes.
encode_header-append :
    (p : Proposal) (r : List ℕ)
    → encode_header p ++ r
      ≡ put_le 8 p.pid
        ++ (put_le 8 p.term
            ++ (put_le 8 p.pinst
                ++ (put_le 8 p.pentry
                    ++ (put_le 8 p.last_chosen
                        ++ (put_le 2 p.last_chosen_from
                            ++ (put_le 2 p.proposer
                                ++ (put_le 4 p.size
                                    ++ (put_le 4 p.status
                                        ++ (put_le 8 p.opaque ++ (put_le 8 p.value_id ++ r))))))))))
unfolding encode_header
encode_header-append p r = simp append_assoc refl

decode_header-encode_header :
    (p : Proposal) (r : List ℕ) → IsFit p → decode_header (encode_header p ++ r) ≡ blank p
unfolding decode_header
decode_header-encode_header p r f = rw (encode_header-append p r) (
    simp
      (
        drop-put_le,
        get_le-put_le 8 p.pid _ f.pid,
        get_le-put_le 8 p.term _ f.term,
        get_le-put_le 8 p.pinst _ f.pinst,
        get_le-put_le 8 p.pentry _ f.pentry,
        get_le-put_le 8 p.last_chosen _ f.last_chosen,
        get_le-put_le 2 p.last_chosen_from _ f.last_chosen_from,
        get_le-put_le 2 p.proposer _ f.proposer,
        get_le-put_le 4 p.size _ f.size,
        get_le-put_le 4 p.status _ f.status,
        get_le-put_le 8 p.opaque _ f.opaque,
        get_le-put_le 8 p.value_id _ f.value_id,
      )
      refl)

module _ (p : Proposal) (f : IsFit p) (r : List ℕ) where
  encode_proposal-append : encode_proposal p.size p ++ r ≡ encode_header p ++ (p.payload ++ r)
  unfolding encode_proposal
  encode_proposal-append =
      rw (take_of_eq-length p.size p.payload f.sized) (append_assoc (encode_header p) p.payload r)

  pub length-encode_proposal : length (encode_proposal p.size p) ≡ proposal_header_sz + p.size
  unfolding encode_proposal
  length-encode_proposal =
      rw (take_of_eq-length p.size p.payload f.sized)
        (omega (arith, length-append (encode_header p) p.payload, length-encode_header p, f.sized))

  pub drop-encode_proposal : drop (proposal_header_sz + p.size) (encode_proposal p.size p ++ r) ≡ r
  drop-encode_proposal =
      ap (λ (n : ℕ). drop n (encode_proposal p.size p ++ r)) (sym length-encode_proposal)
      ∙ drop-append_length (encode_proposal p.size p) r

  pub size_at-encode_proposal : size_at (encode_proposal p.size p ++ r) ≡ some p.size
  unfolding size_at
  size_at-encode_proposal =
      let n = length-append (encode_proposal p.size p) r in
      let d =
        ap (λ (q : Proposal). q.size)
          (ap decode_header encode_proposal-append
            ∙ decode_header-encode_header p (p.payload ++ r) f) in
      ground (arith, n, length-encode_proposal, d)

  payload-encode_proposal :
      take p.size (drop proposal_header_sz (encode_proposal p.size p ++ r)) ≡ p.payload
  payload-encode_proposal =
      ap (take p.size) (
        ap (drop proposal_header_sz) encode_proposal-append
        ∙ ap (λ (n : ℕ). drop n (encode_header p ++ (p.payload ++ r)))
            (sym (length-encode_header p))
        ∙ drop-append_length (encode_header p) (p.payload ++ r))
      ∙ ap (λ (n : ℕ). take n (p.payload ++ r)) (sym f.sized)
      ∙ take-append_length p.payload r

  long_enough : ltb (length (encode_proposal p.size p ++ r)) (proposal_header_sz + p.size) ≡ false
  long_enough = ground (arith, length-append (encode_proposal p.size p) r, length-encode_proposal)

  pub clone_at-encode_proposal : clone_at (encode_proposal p.size p ++ r) ≡ some p
  unfolding clone_at
  clone_at-encode_proposal =
      let d =
        ap decode_header encode_proposal-append
        ∙ decode_header-encode_header p (p.payload ++ r) f in
      rw (d, long_enough, payload-encode_proposal) refl

pub IsFit-dummy : IsFit gen_dummy_proposal
unfolding gen_dummy_proposal alloc_proposal
IsFit-dummy = record {
  pid = omega arith;
  term = omega arith;
  pinst = omega arith;
  pentry = omega arith;
  last_chosen = omega arith;
  last_chosen_from = omega arith;
  proposer = omega arith;
  size = omega arith;
  status = omega arith;
  opaque = omega arith;
  value_id = omega arith;
  sized = refl;
}
