-- ===== src/Proposer/Route/Quorum.antt =====
-- The quorum of promises, over any sequence of responses to an instance.
use quarrel.Prelude.{
  ℕ, ◌+◌, ◌≤◌, ◌≡◌, ◌≢◌, inl, inr, refl, ◌∙◌, ap, List, [], ◌∷◌, ◌++◌, some, false, arith,
}
use quarrel.Config.{Configure}
use quarrel.Ptype.{PaxosMsg}
use quarrel.Proposer.State.{InstanceState, Outcome, majority}
use quarrel.Proposer.Respond.{handle_prepare_rsp}
use quarrel.Proposer.Respond.Once.{is_open}
use quarrel.Proposer.Respond.Quorum.{Waits, is_promise, vote, handle_prepare_rsp-Steps}
use quarrel.Proposer.Route.{respond, ignored}
use quarrel.Proposer.Route.Laws.{respond_cases}

-- What the instance broadcasts while it handles the responses, each with the term it came with.
unfoldable pub broadcasts : Configure → List (ℕ × PaxosMsg) → InstanceState → List PaxosMsg
unfolding respond
broadcasts cfg [] s = []
broadcasts cfg ((term, m) ∷ ms) s =
    let o = respond cfg term (some m) s in o.sent ++ broadcasts cfg ms o.state

abbrev pub promises : ℕ → List (ℕ × PaxosMsg) → ℕ
promises pid [] = 0
promises pid ((term, m) ∷ ms) = vote (is_promise pid m) + promises pid ms

shut_ignores :
    (cfg : Configure) (term : ℕ) (m : PaxosMsg) (s : InstanceState)
    → is_open s ≡ false
    → respond cfg term (some m) s ≡ ignored s
unfolding respond
shut_ignores cfg term m s h = ground arith

pub shut_silent :
    (cfg : Configure) (ms : List (ℕ × PaxosMsg)) (s : InstanceState)
    → is_open s ≡ false
    → broadcasts cfg ms s ≡ []
unfolding broadcasts
shut_silent cfg [] s h = refl
shut_silent cfg ((term, m) ∷ ms) s h = rw (shut_ignores cfg term m s h) (shut_silent cfg ms s h)

pub quiet_step :
    (cfg : Configure) (term : ℕ) (m : PaxosMsg) (ms : List (ℕ × PaxosMsg)) (s : InstanceState)
    (o : Outcome)
    → respond cfg term (some m) s ≡ o
    → o.sent ≡ []
    → broadcasts cfg ((term, m) ∷ ms) s ≡ broadcasts cfg ms o.state
unfolding broadcasts
quiet_step cfg term m ms s o e q =
    ap (λ (x : Outcome). x.sent ++ broadcasts cfg ms x.state) e
    ∙ ap (λ (l : List PaxosMsg). l ++ broadcasts cfg ms o.state) q

broadcasts_quorum :
    (cfg : Configure) (ms : List (ℕ × PaxosMsg)) (pid n : ℕ) (s : InstanceState)
    → Waits pid n s
    → broadcasts cfg ms s ≢ []
    → majority cfg ≤ n + promises pid ms
unfolding broadcasts
broadcasts_quorum cfg [] pid n s w some_sent = absurd (some_sent refl)
broadcasts_quorum cfg ((term, m) ∷ ms) pid n s w some_sent = elim (respond_cases cfg term m s) [
  | inl e ↦
      let go : broadcasts cfg ms s ≢ [] =
        λ none_. some_sent (quiet_step cfg term m ms s (ignored s) e refl ∙ none_) in
      let k = broadcasts_quorum cfg ms pid n s w go in omega arith
  | inr o ↦ elim o [
    | inr (ph, e) ↦ absurd (omega (arith, ph, w.1))
    | inl (_, e) ↦
        let a = handle_prepare_rsp cfg m s in
        elim (handle_prepare_rsp-Steps cfg pid n m s w) [
          | inr enough ↦ omega arith
          | inl (quiet, next) ↦
              let same = quiet_step cfg term m ms s a e quiet in
              elim next [
                | inr shut ↦ absurd (some_sent (same ∙ shut_silent cfg ms a.state shut))
                | inl w' ↦
                    let go : broadcasts cfg ms a.state ≢ [] = λ none_. some_sent (same ∙ none_) in
                    let k =
                      broadcasts_quorum cfg ms pid (n + vote (is_promise pid m)) a.state w' go in
                    omega arith
              ]
        ]
  ]
]

-- If an instance that waits for promises of the ballot `pid`, and has counted none yet, broadcasts
-- anything while it handles a sequence of responses, whatever they are and whatever their terms, then
-- those responses of the sequence that are promises of `pid` (prepare responses with no error, in the
-- state promised, with no higher ballot) are a majority of the number of acceptors at least.
pub broadcast_needs_quorum :
    (cfg : Configure) (ms : List (ℕ × PaxosMsg)) (pid : ℕ) (s : InstanceState)
    → Waits pid 0 s
    → broadcasts cfg ms s ≢ []
    → majority cfg ≤ promises pid ms
broadcast_needs_quorum cfg ms pid s w some_sent =
    let k = broadcasts_quorum cfg ms pid 0 s w some_sent in omega arith
