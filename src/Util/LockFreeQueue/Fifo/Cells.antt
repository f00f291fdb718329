-- ===== src/Util/LockFreeQueue/Fifo/Cells.antt =====
-- What the cells of a queue hold, before and after an operation.
use quarrel.Prelude.{
  ℕ, zero, suc, ◌+◌, ◌-◌, ◌%◌, ◌^◌, ◌≤◌, ◌<◌, ◌≡◌, ◌≢◌, ◌⊎◌, inl, inr, refl, sym, ◌∙◌, ap, List, [],
  ◌∷◌, ◌++◌, Option, none, some, true, get_elem?, get_elem?-set_self, get_elem?-set_ne, set, length,
  length-set, length-append, arith,
}
use quarrel.Prelude.Words.{u64}
use quarrel.Prelude.Ring.{mod_unique}
use native.Mathlib.Decide.{dec_lt}
use native.Mathlib.Nat.{mod-lt, add-mod_right}
use mathlib.Core.Option.{some-injective}
use quarrel.Util.LockFreeQueue.{
  LockFreeQueue, Cell, rt_ok, rt_full, rt_empty, flag_null, flag_seted, enqueue, enqueue_from, fill,
  dequeue,
}

module _ {T : Type 0} where
  -- The cell of the value at the distance `i` from `tail`.
  abbrev pub cell_at : ℕ → LockFreeQueue T → Option (Cell T)
  cell_at i q = get_elem? q.cells ((q.tail + i) % q.size)

  -- The queue is set up and holds the values, the next one to be taken first.
  pub record Holds (xs : List T) (q : LockFreeQueue T) : Type 0 where
    pub init : q.is_init ≡ true
    pub sized : 0 < q.size
    pub bounded : length xs ≤ q.size
    pub ends : q.head ≡ q.tail + length xs
    pub cells : q.size ≤ length q.cells
    pub taken :
        (i : ℕ) (x : T)
        → get_elem? xs i ≡ some x
        → cell_at i q ≡ some (record { flag = flag_seted; datum = some x })
    pub free :
        (i : ℕ)
        → length xs ≤ i
        → i < q.size
        → (d : Option T) × (cell_at i q ≡ some (record { flag = flag_null; datum = d }))

  -- The values when `x` is put behind `xs`.
  get_elem?-append_last :
      (xs : List T) (v x : T) (i : ℕ)
      → get_elem? (xs ++ (v ∷ [])) i ≡ some x
      → ((i < length xs) × (get_elem? xs i ≡ some x)) ⊎ ((i ≡ length xs) × (v ≡ x))
  get_elem?-append_last [] v x zero e = inr (refl, some-injective v x e)
  get_elem?-append_last [] v x (suc i) e = cc
  get_elem?-append_last (y ∷ xs) v x zero e = inl (omega arith, e)
  get_elem?-append_last (y ∷ xs) v x (suc i) e = elim (get_elem?-append_last xs v x i e) [
    | inl a ↦ inl (omega (arith, a.0), a.1)
    | inr b ↦ inr (ap suc b.0, b.1)
  ]

  -- The queue after a value is put into the cell at `head`.
  abbrev pub filled : T → LockFreeQueue T → LockFreeQueue T
  filled v q = record q {
    head = u64 (q.head + 1);
    cells = set q.cells (q.head % q.size) (record { flag = flag_seted; datum = some v });
  }

  pub enqueue_room :
      (v : T) (q : LockFreeQueue T) (d : Option T)
      → q.is_init ≡ true
      → q.tail ≤ q.head
      → q.head - q.tail < q.size
      → get_elem? q.cells (q.head % q.size) ≡ some (record { flag = flag_null; datum = d })
      → enqueue v q ≡ some (rt_ok, filled v q)
  unfolding enqueue enqueue_from fill
  enqueue_room v q d on le room e = ground arith

  pub enqueue_full :
      (v : T) (q : LockFreeQueue T)
      → q.is_init ≡ true
      → q.tail ≤ q.head
      → q.size ≤ q.head - q.tail
      → enqueue v q ≡ some (rt_full, q)
  unfolding enqueue enqueue_from
  enqueue_full v q on le room = ground arith

  -- Two different distances below the size are two different cells.
  apart :
      (q : LockFreeQueue T) (i j : ℕ)
      → i < q.size
      → j < q.size
      → i ≢ j
      → (q.tail + i) % q.size ≢ (q.tail + j) % q.size
  apart q i j i0 j0 ne = λ e. ne (mod_unique q.size q.tail i j (omega arith) i0 j0 e)

  get_elem?-length : (xs : List T) (i : ℕ) (x : T) → get_elem? xs i ≡ some x → i < length xs
  get_elem?-length [] i x e = cc
  get_elem?-length (y ∷ xs) zero x e = omega arith
  get_elem?-length (y ∷ xs) (suc i) x e = omega (arith, get_elem?-length xs i x e)

  pub filled-Holds :
      (v : T) (xs : List T) (q : LockFreeQueue T)
      → Holds xs q
      → length xs < q.size
      → q.head + 1 < 2 ^ 64
      → Holds (xs ++ (v ∷ [])) (filled v q)
  filled-Holds v xs q h room small =
      let at : q.head % q.size ≡ (q.tail + length xs) % q.size = ap (λ n. n % q.size) h.ends in
      let more = length-append xs (v ∷ []) in
      let c : Cell T = record { flag = flag_seted; datum = some v } in
      let other : (i : ℕ) → i < q.size → i ≢ length xs → cell_at i (filled v q) ≡ cell_at i q =
        λ i lt ne.
          get_elem?-set_ne q.cells (q.head % q.size) ((q.tail + i) % q.size) c
            (λ e. apart q i (length xs) lt room ne (sym e ∙ at)) in
      record {
        init = h.init;
        sized = h.sized;
        bounded = omega (arith, more);
        ends = omega (arith, h.ends, more);
        cells = omega (arith, h.cells, length-set q.cells (q.head % q.size) c);
        taken = λ i x e. elim (get_elem?-append_last xs v x i e) [
          | inl a ↦ other i (omega (arith, a.0)) (λ s. omega (arith, a.0, s)) ∙ h.taken i x a.1
          | inr b ↦
              ap (get_elem? (filled v q).cells) (ap (λ k. (q.tail + k) % q.size) b.0 ∙ sym at)
              ∙ get_elem?-set_self q.cells (q.head % q.size) c
                  (omega (arith, mod-lt q.head h.sized, h.cells))
              ∙ ap (λ y. some (record { flag = flag_seted; datum = some y })) b.1
        ];
        free = λ i le lt.
            let (d, e) = h.free i (omega (arith, more)) lt in
            (d, other i lt (λ s. omega (arith, more, s)) ∙ e);
      }

  -- The queue after the value is taken from the cell at `tail`.
  abbrev pub emptied : T → LockFreeQueue T → LockFreeQueue T
  emptied x q = record q {
    tail = u64 (q.tail + 1);
    cells = set q.cells (q.tail % q.size) (record { flag = flag_null; datum = some x });
  }

  pub something_to_take :
      (x : T) (q : LockFreeQueue T)
      → q.is_init ≡ true
      → q.tail < q.head
      → get_elem? q.cells (q.tail % q.size) ≡ some (record { flag = flag_seted; datum = some x })
      → dequeue q ≡ some (rt_ok, some x, emptied x q)
  unfolding dequeue
  something_to_take x q on lt e = ground arith

  pub nothing_to_take :
      (q : LockFreeQueue T)
      → q.is_init ≡ true
      → q.head ≤ q.tail
      → dequeue q ≡ some (rt_empty, none, q)
  unfolding dequeue
  nothing_to_take q on le = ground arith

  pub emptied-Holds :
      (x : T) (xs : List T) (q : LockFreeQueue T)
      → Holds (x ∷ xs) q
      → q.head < 2 ^ 64
      → Holds xs (emptied x q)
  emptied-Holds x xs q h small =
      let c : Cell T = record { flag = flag_null; datum = some x } in
      let shift : (i : ℕ) → (u64 (q.tail + 1) + i) % q.size ≡ (q.tail + suc i) % q.size =
        λ i. ap (λ n. n % q.size) (omega (arith, h.ends)) in
      let first : (q.tail + 0) % q.size ≡ q.tail % q.size = ap (λ n. n % q.size) (omega arith) in
      let other : (i : ℕ) → suc i < q.size → cell_at i (emptied x q) ≡ cell_at (suc i) q = λ i lt.
        ap (get_elem? (emptied x q).cells) (shift i)
        ∙ get_elem?-set_ne q.cells (q.tail % q.size) ((q.tail + suc i) % q.size) c
            (λ e. apart q 0 (suc i) h.sized lt (λ z. omega arith) (first ∙ e)) in
      record {
        init = h.init;
        sized = h.sized;
        bounded = omega (arith, h.bounded);
        ends = omega (arith, h.ends);
        cells = omega (arith, h.cells, length-set q.cells (q.tail % q.size) c);
        taken = λ i y e.
            other i (omega (arith, h.bounded, get_elem?-length xs i y e)) ∙ h.taken (suc i) y e;
        free = λ i le lt. elim (dec_lt (suc i) q.size) [
          | yes more ↦ let (d, e) = h.free (suc i) (omega arith) more in (d, other i more ∙ e)
          | no last ↦
              let back : (q.tail + suc i) % q.size ≡ q.tail % q.size =
                ap (λ n. n % q.size) (omega arith) ∙ add-mod_right q.tail q.size in
              (
                some x,
                ap (get_elem? (emptied x q).cells) (shift i ∙ back)
                    ∙ get_elem?-set_self q.cells (q.tail % q.size) c
                        (omega (arith, mod-lt q.tail h.sized, h.cells)),
              )
        ];
      }
