-- ===== src/IoUring/Laws.antt =====
-- Where the requests of a worker are: in the queue, in a context, or called back.
pub mod Sound
pub mod Fill
pub mod Submit
pub mod Runs
pub mod Restart
pub mod Loop
use quarrel.Prelude.{
  ℕ, zero, suc, ◌+◌, ◌≤◌, ◌<◌, ◌≡◌, ◌⊎◌, inl, inr, refl, sym, ◌∙◌, ap, List, [], ◌∷◌, ◌++◌, Option,
  none, some, Bool, true, false, ◌==◌, arith, if◌then◌else◌, Bool-cases, Option-cases, length,
  tally, tally-append,
}
use quarrel.Prelude.Int.{ℤ}
use quarrel.Util.FixCountAllocator.{FixCountAllocator, alloc_by_shard, release_by_shard}
use quarrel.IoUring.{PendingReq}
use quarrel.IoUring.Worker.{
  ReqQueue, UserData, notifier, context, Sqe, WorkerInfo, bump, notify, issue_request,
}
use quarrel.IoUring.Kernel.{
  heap, data_of, is_notifier, is_context, take_context, land, prepare, release_context, finish,
  complete,
}

-- The contexts in use at an address.
abbrev pub uses : {Q : Type 0} → ℕ → WorkerInfo Q → ℕ
uses a w = tally (λ (c : ℕ × PendingReq). a == c.0) w.contexts

-- How many requests that pass a test a worker has: queued, in a context, or called back.
abbrev pub held : {Q : Type 0} → ReqQueue Q → (PendingReq → Bool) → WorkerInfo Q → ℕ
held queue p w =
    tally p (queue.items w.req_queue)
    + tally (λ (c : ℕ × PendingReq). p c.1) w.contexts
    + tally (λ (c : PendingReq × ℤ). p c.0) w.called

-- A context that is taken out was counted once.
take_context_lem :
    (a : ℕ) (cs : List (ℕ × PendingReq))
    → 0 < tally (λ (c : ℕ × PendingReq). a == c.0) cs
    → (req : PendingReq) × (rest : List (ℕ × PendingReq)) × (take_context a cs ≡ some (req, rest))
      × ((f : ℕ × PendingReq → Bool) → tally f cs ≡ (if f (a, req) then 1 else 0) + tally f rest)
take_context_lem a [] h = absurd (omega arith)
take_context_lem a ((b, req) ∷ cs) h = elim (Bool-cases (a == b)) [
  | inl e ↦
      let same : b ≡ a = ground arith in
      (
        req,
        cs,
        ap
            (λ (t : Bool). if t then some (req, cs) else elim (take_context a cs) [
              | none ↦ none
              | some (r, cs') ↦ some (r, (b, req) ∷ cs')
            ])
            e,
        λ f. ap (λ (x : ℕ). (if f (x, req) then 1 else 0) + tally f cs) same,
      )
  | inr e ↦
      let more : 0 < tally (λ (c : ℕ × PendingReq). a == c.0) cs = ground arith in
      let (r, rest, found, counts) = take_context_lem a cs more in
      (r, (b, req) ∷ rest, rw (e, found) refl, λ f. omega (arith, counts f))
]

-- An entry that the kernel completes was counted once.
pub land-tally :
    (f g : UserData → Bool) (d : UserData) (ds : List UserData)
    → ((x : UserData) → f x ≡ true → x ≡ d)
    → 0 < tally f ds
    → (tally g ds ≡ (if g d then 1 else 0) + tally g (land f ds))
      × (length ds ≡ suc (length (land f ds)))
land-tally f g d [] only h = absurd (omega arith)
land-tally f g d (x ∷ ds) only h = elim (Bool-cases (f x)) [
  | inl e ↦ let same = only x e in rw (e, sym same) (refl, refl)
  | inr e ↦
      let more : 0 < tally f ds = ground arith in
      let (t, l) = land-tally f g d ds only more in rw e (omega arith, ap suc l)
]

-- The worker with another pool of contexts.
abbrev pub pooled : {Q : Type 0} → FixCountAllocator ℕ → ℕ → WorkerInfo Q → WorkerInfo Q
pooled pool next w = record w { waiting_req = pool; next = next }

pub release_context_lem :
    {Q : Type 0} (wid ctx : ℕ) (w : WorkerInfo Q)
    → (pool : FixCountAllocator ℕ) × (next : ℕ) × (release_context wid ctx w ≡ pooled pool next w)
unfolding release_context
release_context_lem wid ctx w =
    elim (Option-cases (release_by_shard heap wid ctx (w.waiting_req, w.next))) [
      | inl e ↦ (w.waiting_req, w.next, rw (release_context, e) refl)
      | inr ((pool, next), e) ↦ (pool, next, rw (release_context, e) refl)
    ]

module _ {Q : Type 0} (queue : ReqQueue Q) where
  -- The worker `w'` has the requests of `w`, and the same entries in the ring.
  abbrev pub Keeps : WorkerInfo Q → WorkerInfo Q → Type 0
  Keeps w w' =
      ((p : PendingReq → Bool) → held queue p w' ≡ held queue p w)
      × (w'.flying ≡ w.flying)
      × (w'.prepared ≡ w.prepared)
      × (w'.uncompleted ≡ w.uncompleted)
      × (w'.rearm_notifier ≡ w.rearm_notifier)

  -- `finish` at a context in use: it is done, and one context less is in use at that address.
  pub finish_lem :
      (wid a : ℕ) (ret : ℤ) (w : WorkerInfo Q)
      → 0 < uses a w
      → (w' : WorkerInfo Q) × (finish wid a ret w ≡ some w')
        × Keeps w w'
        × ((b : ℕ) → uses b w ≡ (if b == a then 1 else 0) + uses b w')
  unfolding finish notify
  finish_lem wid a ret w h =
      let (req, rest, found, counts) = take_context_lem a w.contexts h in
      let done = notify req ret (record w { contexts = rest }) in
      let (pool, next, e) = release_context_lem wid a done in
      (
        pooled pool next done,
        rw (finish, found, e) refl,
        (λ p. omega (arith, counts (λ c. p c.1)), refl, refl, refl, refl),
        λ b. counts (λ c. b == c.0),
      )
