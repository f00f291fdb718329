-- ===== src/Plog/EntryMng/Recover/Ends.antt =====
-- The recovery ends: every batch that is not empty moves the start forward.
use quarrel.Prelude.{
  ℕ, zero, suc, ◌+◌, ◌-◌, ◌≤◌, ◌<◌, ◌≡◌, refl, sym, subst, ◌∙◌, ◌⊎◌, inl, inr, ap, List, [], ◌∷◌,
  Option, none, some, Bool, true, false, ltb, leb, if◌then◌else◌, arith, Bool-cases,
}
use quarrel.Prelude.Int.{is_zero}
use quarrel.Prelude.Words.{all_ones}
use quarrel.Plog.Entry.{Entry}
use quarrel.Plog.EntryMng.{EntryMng, Storage}
use quarrel.Plog.EntryMng.Recover.{
  count_status, recover_entry, recover_batch, recover_loop, recover_range, load_all_from_disk,
}

-- All entries have numbers from `low` to `high`.
abbrev pub AllWithin : ℕ → ℕ → List Entry → Type 0
AllWithin low high [] = Unit {0}
AllWithin low high (e ∷ es) = (low ≤ e.entry) × (e.entry ≤ high) × AllWithin low high es

module _ {D : Type 0} where
  -- A store whose batches hold entries from the number asked for on, and none beyond `high`.
  abbrev pub Holds : Storage D → D → ℕ → ℕ → Type 0
  Holds st disk pinst high =
      (low up : ℕ)
      → is_zero (st.batch_load_entry disk pinst low up).0 ≡ true
      → AllWithin low high (st.batch_load_entry disk pinst low up).1

  -- The store and the instance.
  abbrev SameStore : EntryMng D → EntryMng D → Type 0
  SameStore m m' = (m'.disk ≡ m.disk) × (m'.pinst ≡ m.pinst)

  count_status-SameStore : (e : Entry) (m : EntryMng D) → SameStore m (count_status e m)
  unfolding count_status
  count_status-SameStore e m = ground arith

  recover_entry-start :
      (e : Entry) (start : ℕ) (m : EntryMng D)
      → e.entry < all_ones
      → (recover_entry e (start, m)).0 ≡ (if leb start e.entry then e.entry + 1 else start)
  unfolding recover_entry
  recover_entry-start e start m small = ground arith

  recover_entry-SameStore :
      (e : Entry) (start : ℕ) (m : EntryMng D) → SameStore m (recover_entry e (start, m)).1
  unfolding recover_entry
  recover_entry-SameStore e start m = count_status-SameStore e m

  recover_batch-SameStore :
      (es : List Entry) (start : ℕ) (m : EntryMng D) → SameStore m (recover_batch es (start, m)).1
  unfolding recover_batch
  recover_batch-SameStore [] start m = (refl, refl)
  recover_batch-SameStore (e ∷ es) start m =
      let (a, b) = recover_entry-SameStore e start m in
      let (c, d) =
        recover_batch-SameStore es (recover_entry e (start, m)).0 (recover_entry e (start, m)).1 in
      (c ∙ a, d ∙ b)

  recover_batch-start :
      (es : List Entry) (low high start : ℕ) (m : EntryMng D)
      → high < all_ones
      → AllWithin low high es
      → start ≤ suc high
      → (start ≤ (recover_batch es (start, m)).0) × ((recover_batch es (start, m)).0 ≤ suc high)
  unfolding recover_batch
  recover_batch-start [] low high start m small within le = (omega arith, le)
  recover_batch-start (e ∷ es) low high start m small within le =
      let next = recover_entry-start e start m (omega arith) in
      let (a, b) =
        recover_batch-start es low high (recover_entry e (start, m)).0
          (recover_entry e (start, m)).1 small within.2 (ground (arith, next)) in
      (ground (arith, next, a), b)

  recover_batch_moves :
      (e : Entry) (es : List Entry) (high start : ℕ) (m : EntryMng D)
      → high < all_ones
      → AllWithin start high (e ∷ es)
      → start ≤ suc high
      → (start < (recover_batch (e ∷ es) (start, m)).0)
        × ((recover_batch (e ∷ es) (start, m)).0 ≤ suc high)
  unfolding recover_batch
  recover_batch_moves e es high start m small within le =
      let next = recover_entry-start e start m (omega arith) in
      let (a, b) =
        recover_batch-start es start high (recover_entry e (start, m)).0
          (recover_entry e (start, m)).1 small within.2 (ground (arith, next)) in
      (ground (arith, next, a), b)

module _ {D : Type 0} (st : Storage D) where
  -- One turn of the loop: it ends, or goes on from a later number with the same store.
  recover_loop_turn :
      (fuel start up high : ℕ) (m : EntryMng D)
      → high < all_ones
      → Holds st m.disk m.pinst high
      → start ≤ suc high
      → (recover_loop st (suc fuel) start up m ≡ some m)
        ⊎ ((start' : ℕ) × (m' : EntryMng D) × (recover_loop st (suc fuel) start up m
              ≡ recover_loop st fuel start' up m')
            × (start < start')
            × (start' ≤ suc high)
            × SameStore m m')
  unfolding recover_loop
  recover_loop_turn fuel start up high m small holds le =
      elim (Bool-cases (is_zero (st.batch_load_entry m.disk m.pinst start up).0)) [
        | inr e ↦ inl (rw (e, recover_loop) refl)
        | inl e ↦ go (st.batch_load_entry m.disk m.pinst start up).1 e refl (holds start up e)
      ]
    where
      go :
          (es : List Entry)
          → is_zero (st.batch_load_entry m.disk m.pinst start up).0 ≡ true
          → (st.batch_load_entry m.disk m.pinst start up).1 ≡ es
          → AllWithin start high es
          → (recover_loop st (suc fuel) start up m ≡ some m)
            ⊎ ((start' : ℕ) × (m' : EntryMng D) × (recover_loop st (suc fuel) start up m
                  ≡ recover_loop st fuel start' up m')
                × (start < start')
                × (start' ≤ suc high)
                × SameStore m m')
      go [] e f within = inl (rw (e, f, recover_loop) refl)
      go (x ∷ es) e f within =
          let (a, b) = recover_batch_moves x es high start m small within le in
          let loaded = (st.batch_load_entry m.disk m.pinst start up).1 in
          let next : ℕ × EntryMng D = recover_batch loaded (start, m) in
          let rest = recover_loop st fuel next.0 up next.1 in
          inr (
            next.0,
            next.1,
            rw (e, recover_loop)
                (ap (λ l. elim l as (λ _. Option (EntryMng D)) [ [] ↦ some m | _ ∷ _ ↦ rest ]) f),
            subst (λ l. start < (recover_batch l (start, m)).0) (sym f) a,
            subst (λ l. (recover_batch l (start, m)).0 ≤ suc high) (sym f) b,
            recover_batch-SameStore loaded start m,
          )

  recover_loop_ends :
      (fuel start up high : ℕ) (m : EntryMng D)
      → high < all_ones
      → Holds st m.disk m.pinst high
      → start ≤ suc high
      → suc high - start < fuel
      → (m' : EntryMng D) × (recover_loop st fuel start up m ≡ some m')
  recover_loop_ends zero start up high m small holds le enough = absurd (omega arith)
  recover_loop_ends (suc fuel) start up high m small holds le enough =
      elim (recover_loop_turn fuel start up high m small holds le) [
        | inl e ↦ (m, e)
        | inr (start', n, e, more, le', (disk, pinst)) ↦
            let (m', f) =
              recover_loop_ends fuel start' up high n small
                (subst (λ d. Holds st d n.pinst high) (sym disk)
                  (subst (λ i. Holds st m.disk i high) (sym pinst) holds))
                le' (omega arith) in
            (m', e ∙ f)
      ]

  -- What `RecoverRange` adds after the loop.
  recover_range_ends :
      (fuel start up : ℕ) (m m' : EntryMng D)
      → recover_loop st fuel start up m ≡ some m'
      → (m'' : EntryMng D) × (recover_range st fuel start up m ≡ some (false, m''))
  unfolding recover_range
  recover_range_ends fuel start up m m' e = (
    (if ltb m'.global_max_chosen_entry m'.last_chosen_entry
        then record m' { global_max_chosen_entry = m'.last_chosen_entry }
        else m'),
    rw (recover_range, e) refl,
  )

  -- If the store's batches hold, each time that one is loaded, entries from the number asked for on,
  -- and none beyond `high`, which is below the last number of 64 bits, then `high` + 1 turns of the
  -- loop are enough: with that fuel `LoadAllFromDisk` returns, and what it returns is whether the meta
  -- information could be loaded.
  pub load_all_from_disk_ends :
      (fuel high : ℕ) (m : EntryMng D)
      → high < all_ones
      → Holds st m.disk m.pinst high
      → high < fuel
      → (m' : EntryMng D) × (load_all_from_disk st fuel m
          ≡ some (is_zero (st.load_plog_meta_info m.disk m.pinst).0, m'))
  unfolding load_all_from_disk
  load_all_from_disk_ends fuel high m small holds enough =
      elim (Bool-cases (is_zero (st.load_plog_meta_info m.disk m.pinst).0)) [
        | inr e ↦ (m, rw (e, load_all_from_disk) refl)
        | inl e ↦
            let meta = (st.load_plog_meta_info m.disk m.pinst).1 in
            let reset : EntryMng D = record m {
              max_in_used_entry = 0;
              last_chosen_entry = 0;
              first_valid_entry = all_ones;
              first_unchosen_entry = all_ones;
              max_committed_entry = meta.last_committed;
              max_continue_chosen_entry = meta.last_committed;
              global_max_chosen_entry = 0;
            } in
            let (n, f) =
              recover_loop_ends fuel 1 all_ones high reset small holds (omega arith)
                (omega arith) in
            let (m', g) = recover_range_ends fuel 1 all_ones reset n f in
            (
              m',
              rw e (
                  ap
                    (λ (o : Option (Bool × EntryMng D)).
                      elim o as (λ _. Option (Bool × EntryMng D)) [
                        | none ↦ none
                        | some x ↦ some (true, x.1)
                      ])
                    g),
            )
      ]
