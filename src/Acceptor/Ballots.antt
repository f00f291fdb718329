-- ===== src/Acceptor/Ballots.antt =====
-- How the entries of an acceptor may change: the order that every message keeps.
use quarrel.Prelude.{
  ℕ, suc, ◌%◌, ◌≤◌, ◌≡◌, refl, sym, ap, ap₂, subst, ◌∙◌, none, some, length, true, ◌==◌, ◌&&◌,
  arith, Bool-cases, inl, inr, ==_refl,
}
use mathlib.Core.Option.{some-injective}
use quarrel.Ptype.{Proposal}
use quarrel.Ptype.PaxosState
use quarrel.Plog.Entry.{Entry}
use quarrel.Plog.PlogMng.{PlogMng}
use quarrel.Plog.Cache.{cached}
use quarrel.Plog.Cache.Managers.{logged, IsReady, Logs, same_slot}

-- The proposal id up to which an entry is bound: that of the accepted value, or of the promise.
abbrev pub ballot : Entry → ℕ
ballot x = elim x.accepted [ some a ↦ a.pid | none ↦ elim x.promised [ some q ↦ q.pid | none ↦ 0 ] ]

-- An accepted value may be replaced by one of a greater id, and a chosen one not at all.
abbrev pub Keeps : Proposal → Proposal → Type 0
Keeps a a' =
    (a.pid ≤ a'.pid)
    × (a'.pid ≡ a.pid → a'.value_id ≡ a.value_id)
    × (a.status ≡ PaxosState.chosen → (a'.status ≡ PaxosState.chosen) × (a'.pid ≡ a.pid))

pub record Evolves (x x' : Entry) : Type 0 where
  pub ballot_grows : ballot x ≤ ballot x'
  pub accepted_stays :
      (a : Proposal) → x.accepted ≡ some a → (a' : Proposal) × (x'.accepted ≡ some a') × Keeps a a'

pub Evolves-refl : (x : Entry) → Evolves x x
Evolves-refl x = record {
  ballot_grows = omega arith;
  accepted_stays = λ a h. (a, h, (omega arith, λ e. refl, λ c. (c, refl)));
}

pub Keeps-trans : (a b c : Proposal) → Keeps a b → Keeps b c → Keeps a c
Keeps-trans a b c (p, q, r) (p', q', r') = (
  omega arith,
  λ e. q' (omega arith) ∙ q (omega arith),
  λ h. ((r' (r h).0).0, (r' (r h).0).1 ∙ (r h).1),
)

pub Evolves-trans : (x y z : Entry) → Evolves x y → Evolves y z → Evolves x z
Evolves-trans x y z f g = record {
  ballot_grows = omega (arith, f.ballot_grows, g.ballot_grows);
  accepted_stays = λ a h.
      let (b, hb, kb) = f.accepted_stays a h in
      let (c, hc, kc) = g.accepted_stays b hb in (c, hc, Keeps-trans a b c kb kc);
}

module _ {D : Type 0} where
  -- No cached entry is lost, and each evolves.
  abbrev pub AllEvolve : PlogMng D → PlogMng D → Type 0
  AllEvolve s s' =
      (i j : ℕ) (x : Entry)
      → logged i j s ≡ some x
      → (x' : Entry) × (logged i j s' ≡ some x') × Evolves x x'

  pub AllEvolve-same :
      (s s' : PlogMng D) → ((i j : ℕ) → logged i j s' ≡ logged i j s) → AllEvolve s s'
  AllEvolve-same s s' h i j x e = (x, h i j ∙ e, Evolves-refl x)

  pub AllEvolve-trans : (s t u : PlogMng D) → AllEvolve s t → AllEvolve t u → AllEvolve s u
  AllEvolve-trans s t u f g i j x e =
      let (y, ey, fy) = f i j x e in
      let (z, ez, gz) = g i j y ey in (z, ez, Evolves-trans x y z fy gz)

  pub same_log :
      (n p e : ℕ) (s : PlogMng D) (i j : ℕ)
      → length s.mngs ≡ n
      → ((i % n == p % n) && (e == j)) ≡ true
      → logged p e s ≡ logged i j s
  same_log n p e s i j c b =
      let at : i % length s.mngs ≡ p % length s.mngs =
        ap (λ m. i % m) c ∙ here ∙ sym (ap (λ m. p % m) c) in
      ap₂ (λ m y. cached y m) (sym (same_slot i p s at)) there
    where
      here : i % n ≡ p % n
      here = ground arith

      there : e ≡ j
      there = ground arith

  -- What a write of one entry needs to be a step of the log.
  pub Logs-AllEvolve :
      (n k p e : ℕ) (x : Entry) (s s' : PlogMng D)
      → length s.mngs ≡ n
      → Logs n k p e x s s'
      → ((w : Entry) → logged p e s ≡ some w → Evolves w x)
      → AllEvolve s s'
  Logs-AllEvolve n k p e x s s' c l h i j w g = elim (Bool-cases ((i % n == p % n) && (e == j))) [
    | inl b ↦ (x, l.reads i j ∙ rw b, h w (same_log n p e s i j c b ∙ g))
    | inr b ↦ (w, l.reads i j ∙ rw b g, Evolves-refl w)
  ]

  -- Writes of one and the same entry, in a row.
  pub Logs-refl :
      (n k p e : ℕ) (x : Entry) (s : PlogMng D)
      → IsReady n k s
      → logged p e s ≡ some x
      → Logs n k p e x s s
  Logs-refl n k p e x s r h = record {
    ready = r;
    reads = λ i j. elim (Bool-cases ((i % n == p % n) && (e == j))) [
      | inl b ↦ rw b (sym (same_log n p e s i j r.count b) ∙ h)
      | inr b ↦ rw b
    ];
  }

  pub Logs-trans :
      (n k p e : ℕ) (x y : Entry) (s t u : PlogMng D)
      → Logs n k p e x s t
      → Logs n k p e y t u
      → Logs n k p e y s u
  Logs-trans n k p e x y s t u l m = record {
    ready = m.ready;
    reads = λ i j. elim (Bool-cases ((i % n == p % n) && (e == j))) [
      | inl b ↦ m.reads i j ∙ rw b
      | inr b ↦ m.reads i j ∙ rw b (l.reads i j ∙ rw b)
    ];
  }

  pub Logs-self :
      (n k p e : ℕ) (x : Entry) (s t : PlogMng D) → Logs n k p e x s t → logged p e t ≡ some x
  Logs-self n k p e x s t l = l.reads p e ∙ rw (==_refl (p % n), ==_refl e)

  pub IsReady-fewer : (n k : ℕ) (s : PlogMng D) → IsReady n (suc k) s → IsReady n k s
  IsReady-fewer n k s r = record {
    count = r.count;
    valid = r.valid;
    room = λ i. omega (arith, r.room i);
  }

  -- To create an entry, or to find it, changes nothing that was cached.
  pub create-AllEvolve :
      (n k p e : ℕ) (x : Entry) (s t : PlogMng D)
      → length s.mngs ≡ n
      → Logs n k p e x s t
      → ((w : Entry) → logged p e s ≡ some w → x ≡ w)
      → AllEvolve s t
  create-AllEvolve n k p e x s t c l old =
      Logs-AllEvolve n k p e x s t c l (λ w g. rw (old w g) (Evolves-refl w))

  pub written-Evolves :
      (p e : ℕ) (ent x : Entry) (s : PlogMng D)
      → logged p e s ≡ some ent
      → Evolves ent x
      → (w : Entry) → logged p e s ≡ some w
      → Evolves w x
  written-Evolves p e ent x s h ev w g =
      subst (λ y. Evolves y x) (some-injective ent w (sym h ∙ g)) ev
