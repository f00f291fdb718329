-- ===== src/IoUring/Laws/Sound.antt =====
-- The state of a worker between two turns, and the completion of an entry.
use quarrel.Prelude.{
  ℕ, ◌+◌, ◌-◌, ◌<◌, ◌≡◌, refl, sym, ◌∙◌, ap, [], some, Bool, true, arith, if◌then◌else◌, length,
  tally,
}
use quarrel.Prelude.Int.{ℤ}
use quarrel.IoUring.{PendingReq}
use quarrel.IoUring.Statistic
use quarrel.IoUring.Worker.{ReqQueue, UserData, notifier, context, WorkerInfo, bump}
use quarrel.IoUring.Kernel.{is_notifier, is_context, land, complete}
use quarrel.IoUring.Laws.{uses, held, finish_lem, land-tally}

abbrev pub one : Bool → ℕ
one b = if b then 1 else 0

-- Nothing waits to be submitted, `uncompleted` is the number of entries in flight, each context in
-- use has one, and so has the notifier unless it is to be armed again; and there are fewer of them
-- than `depth + batch`.
pub record IsSound {Q : Type 0} (depth batch : ℕ) (w : WorkerInfo Q) : Type 0 where
  pub taken : w.prepared ≡ []
  pub counted : w.uncompleted ≡ length w.flying
  pub matched : (a : ℕ) → tally (is_context a) w.flying ≡ uses a w
  pub armed : tally is_notifier w.flying + one w.rearm_notifier ≡ 1
  pub bounded : w.uncompleted + one w.rearm_notifier < depth + batch

-- The entry with the data `u`.
abbrev pub is_data : UserData → UserData → Bool
is_data notifier = is_notifier
is_data (context a) = is_context a

only_data : (u x : UserData) → is_data u x ≡ true → x ≡ u
only_data notifier notifier h = refl
only_data notifier (context b) h = cc
only_data (context a) notifier h = cc
only_data (context a) (context b) h = ap context (ground arith)

module _ {Q : Type 0} (queue : ReqQueue Q) (depth batch wid : ℕ) where
  -- The kernel completes an entry that is in flight.
  pub complete_lem :
      (u : UserData) (res : ℤ) (w : WorkerInfo Q)
      → IsSound depth batch w
      → 0 < tally (is_data u) w.flying
      → (w' : WorkerInfo Q) × (complete wid u res w ≡ some w')
        × IsSound depth batch w'
        × ((p : PendingReq → Bool) → held queue p w' ≡ held queue p w)
  unfolding complete bump
  complete_lem notifier res w s h =
      let (t, l) = land-tally is_notifier is_notifier notifier w.flying (only_data notifier) h in
      (
        _,
        refl,
        record {
          taken = s.taken;
          counted = omega (arith, s.counted, l);
          matched = λ a. omega (
            arith,
            (land-tally is_notifier (is_context a) notifier w.flying (only_data notifier) h).0,
            s.matched a,
          );
          armed = omega (arith, t, s.armed, h);
          bounded = omega (arith, s.bounded, s.counted, l);
        },
        λ p. refl,
      )
  complete_lem (context a) res w s h =
      let lands = λ (g : UserData → Bool).
        land-tally (is_context a) g (context a) w.flying (only_data (context a)) h in
      let landed : WorkerInfo Q = record w {
        uncompleted = w.uncompleted - 1;
        flying = land (is_context a) w.flying;
      } in
      let (w', e, (kept, fly, prep, unc, rea), less) =
        finish_lem queue wid a res landed (omega (arith, h, s.matched a)) in
      (
        bump Statistic.rsp 1 w',
        rw (complete, e) refl,
        record {
          taken = prep ∙ s.taken;
          counted = unc ∙ omega (arith, s.counted, (lands is_notifier).1) ∙ sym (ap length fly);
          matched = λ b.
              ap (tally (is_context b)) fly
              ∙ omega (arith, (lands (is_context b)).0, s.matched b, less b);
          armed =
              omega (arith, (lands is_notifier).0, s.armed, ap (tally is_notifier) fly, ap one rea);
          bounded = omega (arith, s.bounded, s.counted, (lands is_notifier).1, unc, ap one rea);
        },
        kept,
      )
