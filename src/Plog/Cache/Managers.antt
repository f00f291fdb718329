-- ===== src/Plog/Cache/Managers.antt =====
-- The same for `PlogMng`: one lemma to an operation, over all instances and entries.
use quarrel.Prelude.{
  ℕ, ◌+◌, ◌%◌, ◌≤◌, ◌<◌, ◌≡◌, refl, ap, ◌∙◌, Option, some, length, true, false, ◌==◌, ◌&&◌,
  if◌then◌else◌, arith, Bool-cases, inl, inr, ◌⊎◌, ==_iff, get_elem?-set_self, get_elem?-set_ne,
  length-set,
}
use quarrel.LruMap.Laws
use quarrel.Plog.Entry.{Entry}
use quarrel.Plog.EntryMng.{EntryMng}
use quarrel.Plog.PlogMng.{PlogMng, mng_at, on_mng, entry_mng, slot}
use quarrel.Plog.Cache.{cached, size, Writes}

-- The cached entry of an instance.
abbrev pub logged : {D : Type 0} → ℕ → ℕ → PlogMng D → Option Entry
logged i e s = cached e (entry_mng i s)

-- There are `n` managers, and each cache has room for `k` more entries.
pub record IsReady {D : Type 0} (n k : ℕ) (s : PlogMng D) : Type 0 where
  pub count : length s.mngs ≡ n
  pub valid : (i : ℕ) → Laws.IsValid (entry_mng i s).entries
  pub room : (i : ℕ) → size (entry_mng i s) + k ≤ (entry_mng i s).entries.max_size

-- One entry of one instance is written, and no other changes.
pub record Logs {D : Type 0} (n k p e : ℕ) (x : Entry) (s s' : PlogMng D) : Type 0 where
  pub ready : IsReady n k s'
  pub reads :
      (i j : ℕ) → logged i j s' ≡ (if (i % n == p % n) && (e == j) then some x else logged i j s)

module _ {D : Type 0} where
  entry_mng-on_mng :
      {R : Type 0} (i p : ℕ) (f : EntryMng D → R × EntryMng D) (s : PlogMng D)
      → 0 < length s.mngs
      → entry_mng i (on_mng p f s).1
        ≡ (if i % length s.mngs == p % length s.mngs then (f (entry_mng p s)).1 else entry_mng i s)
  unfolding entry_mng on_mng
  entry_mng-on_mng i p f s h =
      let v = some (f (entry_mng p s)).1 in
      ground (
        arith,
        length-set s.mngs (slot s p) v,
        get_elem?-set_self s.mngs (slot s p) v,
        get_elem?-set_ne s.mngs (slot s p) (slot s i) v,
      )

  pub on_mng-value :
      {R : Type 0} (p : ℕ) (f : EntryMng D → R × EntryMng D) (s : PlogMng D)
      → (on_mng p f s).0 ≡ (f (entry_mng p s)).0
  unfolding on_mng
  on_mng-value p f s = refl

  pub same_slot :
      (i p : ℕ) (s : PlogMng D)
      → i % length s.mngs ≡ p % length s.mngs
      → entry_mng i s ≡ entry_mng p s
  unfolding entry_mng
  same_slot i p s h = ap (λ k. mng_at k s) h

  count-on_mng :
      {R : Type 0} (p : ℕ) (f : EntryMng D → R × EntryMng D) (s : PlogMng D)
      → length (on_mng p f s).1.mngs ≡ length s.mngs
  unfolding on_mng
  count-on_mng p f s = length-set s.mngs _ _

  -- Which manager an instance has after the call.
  on_mng_cases :
      {R : Type 0} (n p : ℕ) (f : EntryMng D → R × EntryMng D) (s : PlogMng D)
      → 0 < n
      → length s.mngs ≡ n
      → (i : ℕ)
      → (((i % n == p % n) ≡ true)
          × (entry_mng i (on_mng p f s).1 ≡ (f (entry_mng p s)).1)
          × (entry_mng i s ≡ entry_mng p s))
        ⊎ (((i % n == p % n) ≡ false) × (entry_mng i (on_mng p f s).1 ≡ entry_mng i s))
  on_mng_cases n p f s pos c i =
      let here = entry_mng-on_mng i p f s (omega (arith, c)) in
      let d : (i % length s.mngs == p % length s.mngs) ≡ (i % n == p % n) =
        ap (λ m. i % m == p % m) c in
      elim (Bool-cases (i % n == p % n)) [
        | inl yes_ ↦ inl (
          yes_,
          here ∙ ap (λ b. if b then (f (entry_mng p s)).1 else entry_mng i s) (d ∙ yes_),
          same_slot i p s ((==_iff _ _).0 (d ∙ yes_)),
        )
        | inr no_ ↦
            inr (no_, here ∙ ap (λ b. if b then (f (entry_mng p s)).1 else entry_mng i s) (d ∙ no_))
      ]

  -- An operation that writes one entry of the manager writes that entry of the log.
  pub on_mng-Logs :
      {R : Type 0} (n k k' p e : ℕ) (x : Entry) (f : EntryMng D → R × EntryMng D) (s : PlogMng D)
      → 0 < n
      → IsReady n k s
      → Writes e x (entry_mng p s) (f (entry_mng p s)).1
      → size (f (entry_mng p s)).1 + k' ≤ size (entry_mng p s) + k
      → k' ≤ k
      → Logs n k' p e x s (on_mng p f s).1
  on_mng-Logs n k k' p e x f s pos r w less fewer = record {
    ready = record {
      count = count-on_mng p f s ∙ r.count;
      valid = λ i. elim (on_mng_cases n p f s pos r.count i) [
        | inl (_, h, _) ↦ rw h w.valid
        | inr (_, h) ↦ rw h (r.valid i)
      ];
      room = λ i. elim (on_mng_cases n p f s pos r.count i) [
        | inl (_, h, _) ↦ rw h (omega (arith, less, w.same_max, r.room p))
        | inr (_, h) ↦ rw h (omega (arith, fewer, r.room i))
      ];
    };
    reads = λ i j. elim (on_mng_cases n p f s pos r.count i) [
      | inl (b, h, g) ↦ rw (h, b, g) (w.reads j)
      | inr (b, h) ↦ rw (h, b)
    ];
  }

  -- An operation that leaves the cache alone leaves the log alone.
  pub on_mng-quiet :
      {R : Type 0} (n k p : ℕ) (f : EntryMng D → R × EntryMng D) (s : PlogMng D)
      → 0 < n
      → IsReady n k s
      → (f (entry_mng p s)).1.entries ≡ (entry_mng p s).entries
      → IsReady n k (on_mng p f s).1 × ((i j : ℕ) → logged i j (on_mng p f s).1 ≡ logged i j s)
  on_mng-quiet n k p f s pos r same = (
    record {
      count = count-on_mng p f s ∙ r.count;
      valid = λ i. elim (on_mng_cases n p f s pos r.count i) [
        | inl (_, h, _) ↦ rw (h, same) (r.valid p)
        | inr (_, h) ↦ rw h (r.valid i)
      ];
      room = λ i. elim (on_mng_cases n p f s pos r.count i) [
        | inl (_, h, _) ↦ rw (h, same) (r.room p)
        | inr (_, h) ↦ rw h (r.room i)
      ];
    },
    λ i j. elim (on_mng_cases n p f s pos r.count i) [
      | inl (_, h, g) ↦ rw (h, same, g)
      | inr (_, h) ↦ rw h
    ],
  )
