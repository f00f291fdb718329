-- ===== src/IoUring/Laws/Submit.antt =====
-- A whole turn of `pollLoop`, where the kernel takes what is submitted.
use quarrel.Prelude.{
  ℕ, ◌-◌, ◌≤◌, ◌<◌, ◌≡◌, ◌⊎◌, inl, inr, refl, sym, subst, ◌∙◌, ap, List, [], ◌∷◌, ◌++◌, map, Option,
  none, some, ◌==◌, Bool, true, false, ltb, arith, if◌then◌else◌, length, take, tally, tally-append,
  take_all, drop_all, length-append, Bool-cases,
}
use quarrel.Prelude.Int.{ℤ, pos}
use quarrel.IoUring.{PendingReq, UringOptions, magnitude}
use quarrel.IoUring.Statistic
use quarrel.IoUring.Worker.{ReqQueue, UserData, Sqe, WorkerInfo, bump}
use quarrel.IoUring.Kernel.{Polled, failed, cqe, Kernel, data_of, is_notifier, is_context, complete}
use quarrel.IoUring.Poll.{
  Batch, rearm, fill, submitted, submit_batch, end_turn, submit_phase, poll_turn,
}
use quarrel.IoUring.Laws.{held}
use quarrel.IoUring.Laws.Sound.{one, IsSound, is_data, complete_lem}
use quarrel.IoUring.Laws.Fill.{waiting, IsFilled, size, SameHeld, rearm-IsFilled}
use quarrel.IoUring.Laws.Loop.{fill_lem}

-- `io_uring_submit` takes all entries that are prepared, and returns their number.
abbrev pub TakesAll : Kernel → Type 0
TakesAll kernel = (n : ℕ) → 0 < n → kernel.submit n ≡ pos n

-- A completion is that of an entry in flight.
abbrev pub InFlight : Polled → List UserData → Type 0
InFlight failed ds = Unit {0}
InFlight (cqe u res) ds = 0 < tally (is_data u) ds

Polled-cases : (x : Polled) → (x ≡ failed) ⊎ ((u : UserData) × (res : ℤ) × (x ≡ cqe u res))
Polled-cases failed = inl refl
Polled-cases (cqe u res) = inr (u, res, refl)

length-map : (xs : List Sqe) → length (map data_of xs) ≡ length xs
length-map [] = refl
length-map (x ∷ xs) = omega (arith, length-map xs)

empty_of_length : (xs : List Sqe) → length xs ≡ 0 → xs ≡ []
empty_of_length [] h = refl
empty_of_length (x ∷ xs) h = absurd (omega arith)

module _ {Q : Type 0} (queue : ReqQueue Q) (depth batch wid : ℕ) where
  -- The worker `w` with what no law reads from `v`.
  abbrev settled : WorkerInfo Q → WorkerInfo Q → WorkerInfo Q
  settled v w = record v {
    uncompleted = w.uncompleted;
    flying = w.flying;
    prepared = w.prepared;
    contexts = w.contexts;
    rearm_notifier = w.rearm_notifier;
  }

  settled-IsSound : (v w : WorkerInfo Q) → IsSound depth batch w → IsSound depth batch (settled v w)
  settled-IsSound v w s = record {
    taken = s.taken;
    counted = s.counted;
    matched = s.matched;
    armed = s.armed;
    bounded = s.bounded;
  }

  submitted-IsSound :
      (b : Batch Q)
      → IsFilled depth batch b
      → 0 < size b
      → size b ≤ batch
      → IsSound depth batch (submitted (length b.worker.prepared) b.worker)
  unfolding submitted
  submitted-IsSound b s some_ le =
      let w = b.worker in
      let all_ : w.flying ++ map data_of (take (length w.prepared) w.prepared)
          ≡ w.flying ++ waiting w =
        ap (λ (l : List Sqe). w.flying ++ map data_of l) (take_all w.prepared) in
      let tallies =
        λ (f : UserData → Bool). ap (tally f) all_ ∙ tally-append f w.flying (waiting w) in
      let lengths = ap length all_ ∙ length-append w.flying (waiting w) in
      let same : b.notifier_sqe ≡ one w.rearm_notifier = elim s.once [
        | inl x ↦ x
        | inr (x, _, y) ↦ absurd (omega (arith, some_, x, y))
      ] in
      record {
        taken = drop_all w.prepared;
        counted = omega (arith, s.counted, lengths, length-map w.prepared);
        matched = λ a. tallies (is_context a) ∙ s.matched a;
        armed = omega (arith, tallies is_notifier, s.armed, s.notifiers, same);
        bounded = omega (arith, s.bounded, s.total, s.begun, le, same);
      }

  idle-IsSound : (b : Batch Q) → IsFilled depth batch b → size b ≡ 0 → IsSound depth batch b.worker
  idle-IsSound b s none_ =
      let w = b.worker in
      let clear : w.prepared ≡ [] = empty_of_length w.prepared (s.total ∙ none_) in
      record {
        taken = clear;
        counted = s.counted;
        matched = λ a.
            omega (
              arith,
              s.matched a,
              ap (λ (l : List Sqe). tally (is_context a) (map data_of l)) clear,
            );
        armed = s.armed;
        bounded = s.bounded;
      }

  -- The batch is submitted.
  submit_batch_lem :
      (b : Batch Q)
      → 0 < size b
      → length b.worker.prepared ≡ size b
      → submit_batch wid (pos (size b)) (size b) b
        ≡ some (bump Statistic.submit 1 (submitted (length b.worker.prepared) b.worker))
  unfolding submit_batch
  submit_batch_lem b some_ e =
      let positive : (size b == 0) ≡ false = ground arith in
      let same : (size b == size b) ≡ true = ground arith in
      rw (submit_batch, positive, same)
        (ap (λ (t : ℕ). some (bump Statistic.submit 1 (submitted t b.worker))) (sym e))

  bump-IsSound :
      (type n : ℕ) (w : WorkerInfo Q) → IsSound depth batch w → IsSound depth batch (bump type n w)
  unfolding bump
  bump-IsSound type n w s = settled-IsSound (bump type n w) w s

  end_turn-IsSound :
      (b : Batch Q) (w : WorkerInfo Q)
      → IsSound depth batch w
      → IsSound depth batch (end_turn batch b w)
        × SameHeld queue depth batch wid w (end_turn batch b w)
  unfolding end_turn bump
  end_turn-IsSound b w s =
      let next : WorkerInfo Q = record w { wait_block = ltb (size b) batch } in
      elim (Bool-cases (ltb 0 (length b.unsubmitted))) [
        | inl e ↦
            let counted = bump Statistic.req (length b.unsubmitted) next in
            rw (end_turn, e) (settled-IsSound counted w s, λ p. refl)
        | inr e ↦ rw (end_turn, e) (settled-IsSound next w s, λ p. refl)
      ]

module _ {Q : Type 0} (queue : ReqQueue Q) (opt : UringOptions) (wid : ℕ) where
  -- What a turn of the loop comes to: a worker that is as sound, with the same requests.
  abbrev pub Turned : WorkerInfo Q → Option (WorkerInfo Q) → Type 0
  Turned w o =
      (w' : WorkerInfo Q) × (o ≡ some w')
      × IsSound (magnitude opt.iodepth) (magnitude opt.max_batch_num) w'
      × ((p : PendingReq → Bool) → held queue p w' ≡ held queue p w)

  submit_phase_lem :
      (kernel : Kernel) (w : WorkerInfo Q)
      → IsSound (magnitude opt.iodepth) (magnitude opt.max_batch_num) w
      → 0 < magnitude opt.max_batch_num
      → TakesAll kernel
      → Turned w (submit_phase queue opt wid kernel w)
  unfolding submit_phase submitted bump
  submit_phase_lem kernel w s pos_ takes =
      let depth = magnitude opt.iodepth in
      let batch = magnitude opt.max_batch_num in
      let armed = rearm kernel.vacant w in
      let (f, none_yet, le, k) = rearm-IsFilled queue depth batch wid kernel.vacant w s in
      let b = fill queue wid depth (batch - armed.notifier_sqe) armed in
      let (g, le', k') = fill_lem queue depth batch wid (batch - armed.notifier_sqe) armed f in
      elim (Bool-cases (ltb 0 (size b))) [
        | inr e ↦
            let idle = idle-IsSound queue depth batch wid b g (ground arith) in
            let (t, h) = end_turn-IsSound queue depth batch wid b b.worker idle in
            (
              end_turn batch b b.worker,
              rw (submit_phase, e) refl,
              t,
              λ p. omega (arith, h p, k p, k' p),
            )
        | inl e ↦
            let some_ : 0 < size b = ground arith in
            let ends : Option (WorkerInfo Q) → Option (WorkerInfo Q) =
              λ o. elim o [ none ↦ none | some x ↦ some (end_turn batch b x) ] in
            let ret : kernel.submit (length b.worker.prepared) ≡ pos (size b) =
              ap kernel.submit g.total ∙ takes (size b) some_ in
            let run = submit_batch_lem queue depth batch wid b some_ g.total in
            let w' = submitted (length b.worker.prepared) b.worker in
            let sound = bump-IsSound queue depth batch wid Statistic.submit 1 w' (
              submitted-IsSound queue depth batch wid b g some_
                (omega (arith, none_yet, le, le', pos_))) in
            let (t, h) =
              end_turn-IsSound queue depth batch wid b (bump Statistic.submit 1 w') sound in
            (
              end_turn batch b (bump Statistic.submit 1 w'),
              rw (submit_phase, e)
                  (ap ends (ap (λ (r : ℤ). submit_batch wid r (size b) b) ret ∙ run)),
              t,
              λ p. omega (arith, h p, k p, k' p),
            )
      ]

  -- A turn that finds no completion.
  unanswered : Kernel → WorkerInfo Q → Bool → Option (WorkerInfo Q)
  unanswered kernel w blocks =
      if blocks then some (bump Statistic.poll_fail 1 w) else submit_phase queue opt wid kernel w

  poll_turn_failed :
      (kernel : Kernel) (w : WorkerInfo Q)
      → kernel.polled ≡ failed
      → poll_turn queue opt wid kernel w ≡ unanswered kernel w w.wait_block
  unfolding poll_turn unanswered
  poll_turn_failed kernel w e = rw (poll_turn, e) refl

  poll_turn_completed :
      (kernel : Kernel) (w w' : WorkerInfo Q) (u : UserData) (res : ℤ)
      → kernel.polled ≡ cqe u res
      → complete wid u res w ≡ some w'
      → poll_turn queue opt wid kernel w ≡ submit_phase queue opt wid kernel w'
  unfolding poll_turn
  poll_turn_completed kernel w w' u res e done = rw (poll_turn, e, done) refl

  -- A turn of the loop of a worker, at which the options have a positive batch, the state is as it is
  -- between two turns, a completion is of an entry in flight, and the kernel takes all entries that
  -- are submitted. The turn runs to its end: no assertion fails and no context is used that was
  -- released. `uncompleted` is the number of entries in flight again, less than the sum of the depth
  -- and the batch; each context in use belongs to one entry in flight; the notifier is armed, or is to
  -- be armed again. And of the requests that pass any test there are as many as before: each request
  -- stays in the queue, moves to a context in flight, or has its callback called once.
  pub poll_turn-IsSound :
      (kernel : Kernel) (w : WorkerInfo Q)
      → IsSound (magnitude opt.iodepth) (magnitude opt.max_batch_num) w
      → 0 < magnitude opt.max_batch_num
      → InFlight kernel.polled w.flying
      → TakesAll kernel
      → Turned w (poll_turn queue opt wid kernel w)
  unfolding poll_turn unanswered
  poll_turn-IsSound kernel w s pos_ fly takes = elim (Polled-cases kernel.polled) [
    | inl e ↦ elim (Bool-cases w.wait_block) [
      | inl f ↦ (
        bump Statistic.poll_fail 1 w,
        poll_turn_failed kernel w e ∙ ap (unanswered kernel w) f,
        bump-IsSound queue _ _ wid Statistic.poll_fail 1 w s,
        λ p. refl,
      )
      | inr f ↦
          let (w', run, t, h) = submit_phase_lem kernel w s pos_ takes in
          (w', poll_turn_failed kernel w e ∙ ap (unanswered kernel w) f ∙ run, t, h)
    ]
    | inr (u, res, e) ↦
        let (w1, done, t, h) =
          complete_lem queue (magnitude opt.iodepth) (magnitude opt.max_batch_num) wid u res w s
            (subst (λ x. InFlight x w.flying) e fly) in
        let (w2, run, t', h') = submit_phase_lem kernel w1 t pos_ takes in
        (w2, poll_turn_completed kernel w w1 u res e done ∙ run, t', λ p. h' p ∙ h p)
  ]
