-- ===== src/IdGen.antt =====
-- util/idgen.hpp: generators of proposal ids, value ids and request ids.
pub mod Laws
use quarrel.Prelude.{ℕ, ◌+◌, ◌-◌, ◌*◌, ◌/◌, ltb, leb, if◌then◌else◌}
use quarrel.Prelude.Words.{u64, sub_u64}
use Prim.Native.Nat.{bit_and}

pub record IdGen : Type 0 where
  pub id : ℕ  -- uint64_t
  pub step : ℕ  -- uint64_t

unfoldable pub get_and_inc : IdGen → ℕ × IdGen
get_and_inc g = (g.id, record g { id = u64 (g.id + g.step) })

unfoldable pub reset : ℕ → IdGen → IdGen
reset start g = record g { id = start }

-- All arithmetic is of uint64_t. A step of 0 divides by zero in C++, and is never configured.
unfoldable pub set_greater_than : ℕ → IdGen → IdGen
set_greater_than v g = if leb v g.id then g else record g {
  id = u64 (g.id + u64 (sub_u64 (u64 (sub_u64 v g.id + g.step)) 1 / g.step * g.step));
}

-- `IdGenByDate(mask, step)`; the seconds of `gettimeofday` are an argument.
unfoldable pub id_gen_by_date : ℕ → ℕ → ℕ → IdGen
unfolding set_greater_than
id_gen_by_date seconds mask step =
    set_greater_than (bit_and seconds mask) (record { id = 1; step = step })
