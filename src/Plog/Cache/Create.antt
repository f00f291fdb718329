-- ===== src/Plog/Cache/Create.antt =====
-- `GetEntryAndCreateIfNotExist` and `CreateEntry`: which entries are cached after them.
use quarrel.Prelude.{
  ℕ, suc, ◌≤◌, ◌<◌, ◌≡◌, refl, ap, ◌∙◌, Option, none, some, Bool, true, false, ◌==◌, if◌then◌else◌,
  arith, Option-cases, Bool-cases, inl, inr, ltb, ◌||◌, ==_refl,
}
use quarrel.Prelude.Words.{all_ones}
use quarrel.LruMap
use quarrel.LruMap.Laws
use quarrel.LruMap.Laws.{contents}
use quarrel.LruMap.Laws.Put.{put-IsValid, max_size-put}
use quarrel.LruMap.Laws.Reads.{get_ptr-lookup, get_ptr-IsValid, max_size-get_ptr}
use quarrel.LruMap.Laws.Lookup.{lookup-get_ptr, lookup-put, length-put, length-get_ptr}
use quarrel.Plog.Entry.{Entry, new_entry}
use quarrel.Plog.EntryMng.{
  EntryMng, Storage, write_entry, create_new, create_entry, get_entry_and_create_if_not_exist,
}
use quarrel.Plog.Cache.{cached, size, used, Writes, write_entry-Writes}

module _ {D : Type 0} (st : Storage D) where
  create_hit :
      (e : ℕ) (w : Entry) (m : EntryMng D)
      → Laws.IsValid m.entries
      → cached e m ≡ some w
      → get_entry_and_create_if_not_exist st e m ≡ (w, used e m)
  unfolding get_entry_and_create_if_not_exist
  create_hit e w m v h = ground (arith, (get_ptr-lookup e m.entries v).0)

  create_entry_miss :
      (e : ℕ) (m : EntryMng D)
      → Laws.IsValid m.entries
      → cached e m ≡ none
      → create_entry st e m ≡ create_new st e (used e m)
  unfolding create_entry
  create_entry_miss e m v h = ground (arith, (get_ptr-lookup e m.entries v).0)

  create_miss :
      (e : ℕ) (m : EntryMng D)
      → Laws.IsValid m.entries
      → cached e m ≡ none
      → get_entry_and_create_if_not_exist st e m ≡ create_new st e (used e (used e m))
  unfolding get_entry_and_create_if_not_exist
  create_miss e m v h = ground (
    arith,
    (get_ptr-lookup e m.entries v).0,
    create_entry_miss e (used e m) (get_ptr-IsValid e m.entries v)
        (lookup-get_ptr e e m.entries v ∙ h),
  )

  -- The test of `CreateEntry`: beyond what was in use so far.
  abbrev is_beyond : ℕ → EntryMng D → Bool
  is_beyond e m = (m.max_in_used_entry == all_ones) || ltb m.max_in_used_entry e

  create_new_beyond :
      (e : ℕ) (m : EntryMng D)
      → is_beyond e m ≡ true
      → let x = new_entry m.pinst e in
        let y = (st.load_entry m.disk m.pinst e x).1 in
        create_new st e m ≡ (
          y,
          write_entry e y (record m { entries = LruMap.put e x m.entries; max_in_used_entry = e }),
        )
  unfolding create_new
  create_new_beyond e m b = ground arith

  create_new_within :
      (e : ℕ) (m : EntryMng D)
      → is_beyond e m ≡ false
      → let x = new_entry m.pinst e in
        create_new st e m ≡ (x, record m { entries = LruMap.put e x m.entries })
  unfolding create_new
  create_new_within e m b = ground arith

  rewritten :
      (e j : ℕ) (x y : Entry) (o : Option Entry)
      → (if e == j then some y else (if e == j then some x else o)) ≡ (if e == j then some y else o)
  rewritten e j x y o = ground arith

  create_new-Writes :
      (e : ℕ) (m : EntryMng D)
      → Laws.IsValid m.entries
      → size m < m.entries.max_size
      → Writes e (create_new st e m).0 m (create_new st e m).1
        × (size (create_new st e m).1 ≤ suc (size m))
        × ((create_new st e m).1.last_chosen_entry ≡ m.last_chosen_entry)
  create_new-Writes e m v room = elim (Bool-cases (is_beyond e m)) [
    | inr b ↦ rw (create_new_within e m b) (
      record {
        valid = put-IsValid e x m.entries v;
        same_max = max_size-put e x m.entries;
        reads = λ j. lookup-put e j x m.entries v room;
      },
      length-put e x m.entries v room,
      refl,
    )
    | inl b ↦
        let (w, s) =
          write_entry-Writes e y x
            (record m { entries = LruMap.put e x m.entries; max_in_used_entry = e })
            (put-IsValid e x m.entries v) (lookup-put e e x m.entries v room ∙ rw (==_refl e)) in
        rw (create_new_beyond e m b) (
          record {
            valid = w.valid;
            same_max = w.same_max ∙ max_size-put e x m.entries;
            reads = λ j.
                w.reads j
                ∙ ap (λ o. if e == j then some y else o) (lookup-put e j x m.entries v room)
                ∙ rewritten e j x y (cached j m);
          },
          omega (arith, s, length-put e x m.entries v room),
          refl,
        )
  ]
    where
      x : Entry
      x = new_entry m.pinst e

      y : Entry
      y = (st.load_entry m.disk m.pinst e x).1

  used-reads :
      (e : ℕ) (x : Entry) (m m' : EntryMng D)
      → Laws.IsValid m.entries
      → Writes e x (used e m) m'
      → Writes e x m m'
  used-reads e x m m' v w = record {
    valid = w.valid;
    same_max = w.same_max ∙ max_size-get_ptr e m.entries;
    reads =
        λ j. w.reads j ∙ ap (λ o. if e == j then some x else o) (lookup-get_ptr e j m.entries v);
  }

  same_entry :
      (e j : ℕ) (w : Entry) (m : EntryMng D)
      → cached e m ≡ some w
      → cached j m ≡ (if e == j then some w else cached j m)
  same_entry e j w m h = ground arith

  -- `GetEntryAndCreateIfNotExist`, with room in the cache: the entry that it returns is cached, it
  -- is the one that was cached, and no other changes.
  pub create-Writes :
      (e : ℕ) (m : EntryMng D)
      → Laws.IsValid m.entries
      → size m < m.entries.max_size
      → let (x, m') = get_entry_and_create_if_not_exist st e m in
        Writes e x m m'
        × (size m' ≤ suc (size m))
        × ((w : Entry) → cached e m ≡ some w → x ≡ w)
        × (m'.last_chosen_entry ≡ m.last_chosen_entry)
  create-Writes e m v room = elim (Option-cases (cached e m)) [
    | inr (w, h) ↦ rw (create_hit e w m v h) (
      record {
        valid = get_ptr-IsValid e m.entries v;
        same_max = max_size-get_ptr e m.entries;
        reads = λ j. lookup-get_ptr e j m.entries v ∙ same_entry e j w m h;
      },
      omega (arith, length-get_ptr e m.entries v),
      λ w' h'. ground arith,
      refl,
    )
    | inl h ↦
        let v1 = get_ptr-IsValid e m.entries v in
        let v2 = get_ptr-IsValid e (used e m).entries v1 in
        let s1 = length-get_ptr e m.entries v in
        let s2 = length-get_ptr e (used e m).entries v1 in
        let m1 = max_size-get_ptr e m.entries in
        let m2 = max_size-get_ptr e (used e m).entries in
        let (a, b, c) =
          create_new-Writes e (used e (used e m)) v2 (omega (arith, s1, s2, m1, m2)) in
        rw (create_miss e m v h) (
          used-reads e _ m _ v (used-reads e _ (used e m) _ v1 a),
          omega (arith, b, s1, s2),
          λ w' h'. absurd (ground arith),
          c,
        )
  ]
