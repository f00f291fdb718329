-- ===== src/IoUring/Laws/Fill.antt =====
-- What a request adds to a batch.
use quarrel.Prelude.{
  ℕ, suc, ◌+◌, ◌≤◌, ◌<◌, ◌≡◌, ◌⊎◌, inl, inr, refl, sym, subst, ap, List, [], ◌∷◌, ◌++◌, map, Bool,
  true, ◌&&◌, ◌==◌, ltb, arith, length, tally, length-append, Bool-cases,
}
use quarrel.IoUring.{PendingReq}
use quarrel.IoUring.UringErr
use quarrel.IoUring.Statistic
use quarrel.IoUring.Worker.{ReqQueue, UserData, context, Sqe, poll_add, WorkerInfo, bump, notify}
use quarrel.IoUring.Kernel.{data_of, is_notifier, is_context, prepare}
use quarrel.IoUring.Poll.{Batch, rearm, put_request}
use quarrel.IoUring.Laws.{uses, held, pooled, release_context_lem}
use quarrel.IoUring.Laws.Sound.{one, IsSound}

-- The data of the entries that are prepared and not submitted.
abbrev pub waiting : {Q : Type 0} → WorkerInfo Q → List UserData
waiting w = map data_of w.prepared

-- A batch in the making: its entries are those prepared; each context in use has one entry, prepared
-- or in flight; a notifier to be armed again has one, or the ring was full; and a batch with requests
-- was begun with fewer than `depth` entries in flight.
pub record IsFilled {Q : Type 0} (depth batch : ℕ) (b : Batch Q) : Type 0 where
  pub counted : b.worker.uncompleted ≡ length b.worker.flying
  pub total : length b.worker.prepared ≡ length b.unsubmitted + b.notifier_sqe
  pub matched :
      (a : ℕ)
      → tally (is_context a) b.worker.flying + tally (is_context a) (waiting b.worker)
        ≡ uses a b.worker
  pub notifiers : tally is_notifier (waiting b.worker) ≡ b.notifier_sqe
  pub armed : tally is_notifier b.worker.flying + one b.worker.rearm_notifier ≡ 1
  pub once :
      (b.notifier_sqe ≡ one b.worker.rearm_notifier)
      ⊎ ((b.notifier_sqe ≡ 0) × (b.vacant ≡ 0) × (length b.unsubmitted ≡ 0))
  pub bounded : b.worker.uncompleted + one b.worker.rearm_notifier < depth + batch
  pub begun : (length b.unsubmitted ≡ 0) ⊎ (b.worker.uncompleted < depth)

-- The size of a batch.
abbrev pub size : {Q : Type 0} → Batch Q → ℕ
size b = length b.unsubmitted + b.notifier_sqe

-- One more entry is prepared.
waiting_tally :
    (f : UserData → Bool) (xs : List Sqe) (x : Sqe)
    → tally f (map data_of (xs ++ x ∷ [])) ≡ tally f (map data_of xs) + one (f (data_of x))
waiting_tally f [] x = omega arith
waiting_tally f (y ∷ xs) x = omega (arith, waiting_tally f xs x)

module _ {Q : Type 0} (queue : ReqQueue Q) (depth batch wid : ℕ) where
  abbrev pub SameHeld : WorkerInfo Q → WorkerInfo Q → Type 0
  SameHeld w w' = (p : PendingReq → Bool) → held queue p w' ≡ held queue p w

  -- What becomes of a batch when the requests `more` come to it: it has the same size if the loop
  -- ends, and one entry more if not.
  abbrev pub Grows : ((PendingReq → Bool) → ℕ) → Batch Q → Batch Q ⊎ Batch Q → Type 0
  Grows more b (inl b') =
      IsFilled depth batch b'
      × (size b' ≡ size b)
      × ((p : PendingReq → Bool) → held queue p b'.worker ≡ more p + held queue p b.worker)
  Grows more b (inr b') =
      IsFilled depth batch b'
      × (size b' ≡ suc (size b))
      × ((p : PendingReq → Bool) → held queue p b'.worker ≡ more p + held queue p b.worker)

  pub rearm-IsFilled :
      (vacant : ℕ) (w : WorkerInfo Q)
      → IsSound depth batch w
      → IsFilled depth batch (rearm vacant w)
        × (length (rearm vacant w).unsubmitted ≡ 0)
        × ((rearm vacant w).notifier_sqe ≤ 1)
        × SameHeld w (rearm vacant w).worker
  unfolding rearm
  rearm-IsFilled vacant w s = elim (Bool-cases (w.rearm_notifier && ltb 0 vacant)) [
    | inl e ↦
        let only : w.prepared ++ poll_add ∷ [] ≡ poll_add ∷ [] =
          ap (λ (l : List Sqe). l ++ poll_add ∷ []) s.taken in
        let on : one w.rearm_notifier ≡ 1 = ground arith in
        rw (rearm, e)
          (
            record {
              counted = s.counted;
              total = ap length only;
              matched = λ a. omega (
                arith,
                s.matched a,
                ap (λ (l : List Sqe). tally (is_context a) (map data_of l)) only,
              );
              notifiers = ap (λ (l : List Sqe). tally is_notifier (map data_of l)) only;
              armed = s.armed;
              once = inl (sym on);
              bounded = s.bounded;
              begun = inl refl;
            },
            refl,
            omega arith,
            λ p. refl,
          )
    | inr e ↦
        rw (rearm, e)
          (
            record {
              counted = s.counted;
              total = ap length s.taken;
              matched = λ a. omega (
                arith,
                s.matched a,
                ap (λ (l : List Sqe). tally (is_context a) (map data_of l)) s.taken,
              );
              notifiers = ap (λ (l : List Sqe). tally is_notifier (map data_of l)) s.taken;
              armed = s.armed;
              once = ground arith;
              bounded = s.bounded;
              begun = inl refl;
            },
            refl,
            omega arith,
            λ p. refl,
          )
  ]

  data_of-prepare : (ctx : ℕ) (req : PendingReq) → data_of (prepare ctx req) ≡ context ctx
  unfolding prepare
  data_of-prepare ctx req = ground arith

  -- The batch of `b` with what no law reads from the worker `v`.
  abbrev pub moved : WorkerInfo Q → Batch Q → Batch Q
  moved v b = record b {
    worker = record v {
      uncompleted = b.worker.uncompleted;
      flying = b.worker.flying;
      prepared = b.worker.prepared;
      contexts = b.worker.contexts;
      rearm_notifier = b.worker.rearm_notifier;
    };
  }

  pub moved-IsFilled :
      (v : WorkerInfo Q) (b : Batch Q) → IsFilled depth batch b → IsFilled depth batch (moved v b)
  moved-IsFilled v b s = record {
    counted = s.counted;
    total = s.total;
    matched = s.matched;
    notifiers = s.notifiers;
    armed = s.armed;
    once = s.once;
    bounded = s.bounded;
    begun = s.begun;
  }

  -- A request is put in the context `ctx`.
  pub put_request-Grows :
      (req : PendingReq) (ctx : ℕ) (b : Batch Q)
      → IsFilled depth batch b
      → b.worker.uncompleted < depth
      → Grows (λ p. one (p req)) b (put_request wid req ctx b)
  unfolding put_request notify bump
  put_request-Grows req ctx b s lt = elim (Bool-cases (b.vacant == 0)) [
    | inl e ↦
        let (pool, next, r) =
          release_context_lem wid ctx (notify req UringErr.alloc_sqe_failed b.worker) in
        let v = pooled pool next (notify req UringErr.alloc_sqe_failed b.worker) in
        let ends : WorkerInfo Q → Type 0 = λ w.
          Grows (λ p. one (p req)) b
            (inl (record b { worker = bump Statistic.get_sqe_fail 1 w })) in
        rw (put_request, e)
          (subst ends (sym r)
            (moved-IsFilled (bump Statistic.get_sqe_fail 1 v) b s, refl, λ p. omega arith))
    | inr e ↦
        let d = data_of-prepare ctx req in
        let room : b.notifier_sqe ≡ one b.worker.rearm_notifier = elim s.once [
          | inl x ↦ x
          | inr (_, v, _) ↦ let full : (b.vacant == 0) ≡ true = rw v refl in cc
        ] in
        rw (put_request, e)
          (
            record {
              counted = s.counted;
              total = omega (
                arith,
                s.total,
                length-append b.worker.prepared (prepare ctx req ∷ []),
                length-append b.unsubmitted (ctx ∷ []),
              );
              matched = λ a. omega (
                arith,
                s.matched a,
                waiting_tally (is_context a) b.worker.prepared (prepare ctx req),
                ap (λ (u : UserData). one (is_context a u)) d,
              );
              notifiers = omega (
                arith,
                s.notifiers,
                waiting_tally is_notifier b.worker.prepared (prepare ctx req),
                ap (λ (u : UserData). one (is_notifier u)) d,
              );
              armed = s.armed;
              once = inl room;
              bounded = s.bounded;
              begun = inr lt;
            },
            omega (arith, length-append b.unsubmitted (ctx ∷ [])),
            λ p. omega arith,
          )
  ]
