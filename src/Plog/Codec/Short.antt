-- ===== src/Plog/Codec/Short.antt =====
-- Bytes that are too few for two proposals.
use quarrel.Prelude.{
  ℕ, zero, suc, ◌-◌, ◌≤◌, ◌<◌, ◌≡◌, refl, List, [], ◌∷◌, length, drop, none, some, not, ltb, ◌==◌,
  false, if◌then◌else◌, arith,
}
use quarrel.Ptype.ErrCode
use quarrel.Plog.Entry.{Entry}
use quarrel.Plog.Codec.Bytes.{get_le}
use quarrel.Plog.Codec.{size_at, unserialize_from}

length-drop {ℓ} : {A : Type ℓ} (n : ℕ) (xs : List A) → length (drop n xs) ≡ length xs - n
length-drop zero xs = omega arith
length-drop (suc n) [] = omega arith
length-drop (suc n) (x ∷ xs) = omega (arith, length-drop n xs)

size_at_short : (bs : List ℕ) → length bs < 48 → size_at bs ≡ none
unfolding size_at
size_at_short bs h = ground arith

-- Every string of 9 to 55 bytes whose first four bytes are its length passes both tests of
-- `UnserializeFrom`, and the size field of the first proposal is then read past the end.
pub unserialize_from_past_end :
    (from : List ℕ) (e : Entry)
    → 9 ≤ length from
    → length from < 56
    → get_le 4 from ≡ length from
    → unserialize_from from e ≡ none
unfolding unserialize_from
unserialize_from_past_end from e low high same =
    let short = size_at_short (drop 8 from) (omega (arith, length-drop 8 from)) in
    let a : ltb (length from) 9 ≡ false = ground arith in
    let b : not (get_le 4 from == length from) ≡ false = ground arith in rw (a, b, short) refl

-- A string whose first four bytes are not its length, or that is shorter than 9 bytes, is refused, and
-- the entry is as before.
pub unserialize_from_refuses :
    (from : List ℕ) (e : Entry)
    → (get_le 4 from == length from) ≡ false
    → unserialize_from from e
      ≡ some (
        if ltb (length from) 9 then ErrCode.unmarshal_plog_fail else ErrCode.invalid_plog_data,
        e,
      )
unfolding unserialize_from
unserialize_from_refuses from e differ = ground arith
