-- ===== src/Util/LockFreeQueue/Fifo.antt =====
-- The ring of cells as a bounded first-in first-out queue.
pub mod Cells
use quarrel.Prelude.{
  ℕ, zero, suc, ◌+◌, ◌-◌, ◌%◌, ◌^◌, ◌≤◌, ◌<◌, ◌≡◌, ◌≢◌, ◌⊎◌, inl, inr, refl, sym, ◌∙◌, ap, List, [],
  ◌∷◌, ◌++◌, Option, none, some, true, get_elem?, get_elem?-set_self, get_elem?-set_ne, set, length,
  length-set, length-append, length-replicate, replicate, arith,
}
use quarrel.Prelude.Words.{u64}
use quarrel.Prelude.Ring.{mod_unique}
use native.Mathlib.Decide.{dec_lt}
use native.Mathlib.Nat.{mod-lt, add-mod_right}
use mathlib.Core.Option.{some-injective}
use quarrel.Util.LockFreeQueue.{
  LockFreeQueue, init, blank, Cell, rt_ok, rt_full, rt_empty, flag_null, flag_seted, enqueue,
  enqueue_from, fill, dequeue,
}
use quarrel.Util.LockFreeQueue.Fifo.Cells.{
  Holds, filled, emptied, enqueue_room, enqueue_full, filled-Holds, something_to_take,
  nothing_to_take, emptied-Holds, cell_at,
}

module _ {T : Type 0} where
  -- What `Enqueue` makes of a queue that holds `xs`: it is full, or holds the value too, as the last.
  abbrev pub Enqueues : T → List T → LockFreeQueue T → Type 0
  Enqueues v xs q =
      ((length xs < q.size)
        × (q' : LockFreeQueue T) × (enqueue v q ≡ some (rt_ok, q'))
        × (q'.size ≡ q.size)
        × Holds (xs ++ (v ∷ [])) q')
      ⊎ ((length xs ≡ q.size) × (enqueue v q ≡ some (rt_full, q)))

  -- On a queue that is set up and holds `xs`, while its counter stays below 2 ^ 64 and no other thread
  -- is at work: if `xs` are fewer than the size, `Enqueue` returns RT_OK, and the queue holds `xs` and
  -- behind them the value; if they are as many as the size, it returns RT_FULL and changes nothing.
  -- More they never are, and the call never waits.
  pub enqueue-Holds :
      (v : T) (xs : List T) (q : LockFreeQueue T)
      → Holds xs q
      → q.head + 1 < 2 ^ 64
      → Enqueues v xs q
  enqueue-Holds v xs q h small = elim (dec_lt (length xs) q.size) [
    | yes room ↦
        let (d, e) = h.free (length xs) (omega arith) room in
        inl (
          room,
          filled v q,
          enqueue_room v q d h.init (omega (arith, h.ends)) (omega (arith, h.ends))
              (ap (λ n. get_elem? q.cells (n % q.size)) h.ends ∙ e),
          refl,
          filled-Holds v xs q h room small,
        )
    | no full ↦ inr (
      omega (arith, h.bounded),
      enqueue_full v q h.init (omega (arith, h.ends)) (omega (arith, h.ends)),
    )
  ]

  -- What `Dequeue` makes of a queue that holds the values.
  abbrev pub Dequeues : List T → LockFreeQueue T → Type 0
  Dequeues [] q = dequeue q ≡ some (rt_empty, none, q)
  Dequeues (x ∷ xs) q =
      (q' : LockFreeQueue T) × (dequeue q ≡ some (rt_ok, some x, q'))
      × (q'.size ≡ q.size)
      × Holds xs q'

  -- On a queue that is set up and holds `xs`, its counter below 2 ^ 64 and no other thread at work:
  -- if `xs` is empty, `Dequeue` returns RT_EMPTY and changes nothing; else it returns RT_OK with the
  -- first of `xs`, and the queue holds the others. The call never waits.
  pub dequeue-Holds :
      (xs : List T) (q : LockFreeQueue T) → Holds xs q → q.head < 2 ^ 64 → Dequeues xs q
  dequeue-Holds [] q h small = nothing_to_take q h.init (omega (arith, h.ends))
  dequeue-Holds (x ∷ xs) q h small =
      let first : (q.tail + 0) % q.size ≡ q.tail % q.size = ap (λ n. n % q.size) (omega arith) in
      (
        emptied x q,
        something_to_take x q h.init (omega (arith, h.ends))
            (ap (get_elem? q.cells) (sym first) ∙ h.taken 0 x refl),
        refl,
        emptied-Holds x xs q h small,
      )

  get_elem?-replicate : (n i : ℕ) (c : Cell T) → i < n → get_elem? (replicate n c) i ≡ some c
  get_elem?-replicate zero i c lt = absurd (omega arith)
  get_elem?-replicate (suc n) zero c lt = refl
  get_elem?-replicate (suc n) (suc i) c lt = get_elem?-replicate n i c (omega arith)

  -- A queue of a size above 0 that was just set up holds nothing.
  pub init-Holds : (size : ℕ) → 0 < size → Holds [] (init size (blank {T = T}))
  unfolding init blank
  init-Holds size pos = record {
    init = refl;
    sized = pos;
    bounded = omega arith;
    ends = refl;
    cells = omega (
      arith,
      length-replicate {A = Cell T} (suc size) (record { flag = flag_null; datum = none }),
    );
    taken = λ i x e. cc;
    free = λ i le lt. (
      none,
      get_elem?-replicate (suc size) ((0 + i) % size) _ (omega (arith, mod-lt (0 + i) pos)),
    );
  }
