-- ===== src/Plog/Codec.antt =====
-- `Entry::SerializeTo` and `Entry::UnserializeFrom` of core/plog.cpp: an entry as bytes, on a machine
-- that puts the low byte first.
pub mod Bytes
pub mod RoundTrip
pub mod Short
use quarrel.Prelude.{
  ℕ, ◌+◌, ◌*◌, ◌-◌, List, [], ◌∷◌, ◌++◌, length, take, drop, Option, none, some, not, ltb, ◌==◌,
  if◌then◌else◌,
}
use quarrel.Prelude.Int.{ℤ}
use quarrel.Prelude.Words.{u32}
use quarrel.Ptype.{Proposal, proposal_header_sz, gen_dummy_proposal}
use quarrel.Ptype.ErrCode
use quarrel.Plog.Entry.{Entry}
use Bytes.{put_le, get_le}

-- The header of the packed struct, and the bytes behind it.
unfoldable pub encode_header : Proposal → List ℕ
encode_header p =
    put_le 8 p.pid
    ++ (put_le 8 p.term
        ++ (put_le 8 p.pinst
            ++ (put_le 8 p.pentry
                ++ (put_le 8 p.last_chosen
                    ++ (put_le 2 p.last_chosen_from
                        ++ (put_le 2 p.proposer
                            ++ (put_le 4 p.size
                                ++ (put_le 4 p.status
                                    ++ (put_le 8 p.opaque ++ put_le 8 p.value_id)))))))))

-- `memcpy` of the header and `n` bytes.
unfoldable pub encode_proposal : ℕ → Proposal → List ℕ
unfolding encode_header
encode_proposal n p = encode_header p ++ take n p.payload

-- The fields that stand at the start of the bytes, and no payload.
unfoldable pub decode_header : List ℕ → Proposal
decode_header bs =
    let b1 = drop 8 bs in
    let b2 = drop 8 b1 in
    let b3 = drop 8 b2 in
    let b4 = drop 8 b3 in
    let b5 = drop 8 b4 in
    let b6 = drop 2 b5 in
    let b7 = drop 2 b6 in
    let b8 = drop 4 b7 in
    let b9 = drop 4 b8 in
    let b10 = drop 8 b9 in
    record {
      pid = get_le 8 bs;
      term = get_le 8 b1;
      pinst = get_le 8 b2;
      pentry = get_le 8 b3;
      last_chosen = get_le 8 b4;
      last_chosen_from = get_le 2 b5;
      proposer = get_le 2 b6;
      size = get_le 4 b7;
      status = get_le 4 b8;
      opaque = get_le 8 b9;
      value_id = get_le 8 b10;
      payload = [];
    }

-- `p->size_` through a pointer to these bytes; none is a read past their end, here and below.
unfoldable pub size_at : List ℕ → Option ℕ
size_at bs = if ltb (length bs) 48 then none else some (decode_header bs).size

-- `CloneProposal(*p)`
unfoldable pub clone_at : List ℕ → Option Proposal
clone_at bs =
    let p = decode_header bs in
    if ltb (length bs) (proposal_header_sz + p.size)
    then none
    else some (record p { payload = take p.size (drop proposal_header_sz bs) })

-- The first and the second proposal that are stored, with the sizes that `SerializeTo` finds.
unfoldable pub stored_accepted : Entry → ℕ × Proposal
stored_accepted e = elim e.accepted [ none ↦ (1, gen_dummy_proposal) | some a ↦ (a.size, a) ]

unfoldable pub stored_promised : Entry → ℕ × Proposal
stored_promised e = elim e.accepted [
  | some _ ↦ (1, gen_dummy_proposal)
  | none ↦ elim e.promised [ none ↦ (1, gen_dummy_proposal) | some q ↦ (q.size, q) ]
]

-- The value and the output.
unfoldable pub serialize_to : Entry → ℕ × List ℕ
unfolding encode_proposal
serialize_to e =
    let (n1, p1) = stored_accepted e in
    let (n2, p2) = stored_promised e in
    let total_sz = u32 (8 + (proposal_header_sz + n1) + (proposal_header_sz + n2)) in
    (
      total_sz,
      put_le 4 total_sz ++ (put_le 4 0x11 ++ (encode_proposal n1 p1 ++ encode_proposal n2 p2)),
    )

-- `UnserializeFrom` once both sizes were read.
unfoldable pub clone_both : List ℕ → ℕ → ℕ → Entry → Option (ℤ × Entry)
clone_both from s1 s2 e =
    let raw = drop 8 from in
    if not (u32 (s1 + s2) + 2 * proposal_header_sz == length from - 8)
    then some (ErrCode.invalid_plog_data, e)
    else elim (clone_at raw) [
      | none ↦ none
      | some a ↦ elim (clone_at (drop (proposal_header_sz + s1) raw)) [
        | none ↦ none
        | some q ↦ some (ErrCode.ok, record e { accepted = some a; promised = some q })
      ]
    ]

unfoldable pub unserialize_from : List ℕ → Entry → Option (ℤ × Entry)
unserialize_from from e =
    let raw = drop 8 from in
    if ltb (length from) 9
    then some (ErrCode.unmarshal_plog_fail, e)
    else if not (get_le 4 from == length from)
    then some (ErrCode.invalid_plog_data, e)
    else elim (size_at raw) [
      | none ↦ none
      | some s1 ↦ elim (size_at (drop (proposal_header_sz + s1) raw)) [
        | none ↦ none
        | some s2 ↦ clone_both from s1 s2 e
      ]
    ]
