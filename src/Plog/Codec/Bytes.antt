-- ===== src/Plog/Codec/Bytes.antt =====
-- Numbers of `w` bytes, the low byte first.
use quarrel.Prelude.{
  ℕ, zero, suc, ◌+◌, ◌*◌, ◌/◌, ◌%◌, ◌<◌, ◌≡◌, refl, ap, List, [], ◌∷◌, ◌++◌, length, drop, arith,
}

unfoldable pub put_le : ℕ → ℕ → List ℕ
put_le zero n = []
put_le (suc w) n = (n % 256) ∷ put_le w (n / 256)

-- Bytes that are missing count as 0; the callers test the length.
unfoldable pub get_le : ℕ → List ℕ → ℕ
get_le zero bs = 0
get_le (suc w) [] = 0
get_le (suc w) (b ∷ bs) = b + 256 * get_le w bs

-- 256 ^ w
abbrev pub limit : ℕ → ℕ
limit zero = 1
limit (suc w) = 256 * limit w

pub length-put_le : (w n : ℕ) → length (put_le w n) ≡ w
unfolding put_le
length-put_le zero n = refl
length-put_le (suc w) n = ap suc (length-put_le w (n / 256))

pub get_le-put_le : (w n : ℕ) (r : List ℕ) → n < limit w → get_le w (put_le w n ++ r) ≡ n
unfolding put_le get_le
get_le-put_le zero n r h = omega arith
get_le-put_le (suc w) n r h = omega (arith, get_le-put_le w (n / 256) r (omega arith))

pub drop-put_le : (w n : ℕ) (r : List ℕ) → drop w (put_le w n ++ r) ≡ r
unfolding put_le
drop-put_le zero n r = refl
drop-put_le (suc w) n r = drop-put_le w (n / 256) r
