-- ===== src/Protocol/Agreement.antt =====
-- Agreement: the ballots that a majority of acceptors promised and accepted.
use quarrel.Prelude.{
  ℕ, suc, ◌+◌, ◌≤◌, ◌<◌, ◌≡◌, inl, inr, refl, List, [], ◌∷◌, length, some, false, ◌&&◌, arith,
  Bool-cases,
}
use native.Mathlib.Decide.{dec_lt}
use quarrel.Config.{Configure}
use quarrel.Ptype.{Proposal}
use quarrel.Plog.Entry.{Entry}
use quarrel.Plog.EntryMng.{Storage}
use quarrel.Plog.Cache.Managers.{logged, IsReady}
use quarrel.Acceptor.Ballots.{ballot, AllEvolve}
use quarrel.Acceptor.Stable.{dispatch-AllEvolve, do_handle_msg-state}
use quarrel.Acceptor.Defs.{Acceptor, PaxosRequest, do_handle_msg}
use quarrel.Proposer.State.{majority}
use quarrel.Proposer.Respond.Quorum.{vote}
use quarrel.Protocol.Votes.{promised_now, promised_fresh, accepted_now}
use quarrel.Protocol.History.{Exchange, promises, accepts, any, history, accepts-promises}

IsReady-least : {D : Type 0} (n k : ℕ) (s : _) → IsReady {D = D} n (suc k) s → IsReady n 1 s
IsReady-least n k s r = record {
  count = r.count;
  valid = r.valid;
  room = λ i. omega (arith, r.room i);
}

module _ {D : Type 0} (st : Storage D) (cfg : Configure) (n : ℕ) (pos : 0 < n) (i j : ℕ) where
  step-AllEvolve :
      (k : ℕ) (req : PaxosRequest) (a : Acceptor D)
      → IsReady n (suc k) a.plog
      → IsReady n k (do_handle_msg st cfg req a).1.plog
        × AllEvolve a.plog (do_handle_msg st cfg req a).1.plog
  step-AllEvolve k req a r =
      rw (do_handle_msg-state st n pos cfg req a) (dispatch-AllEvolve st n pos k req.msg a r)

  -- With an accepted value, an acceptor promises nothing.
  accepted_silences :
      (b : ℕ) (reqs : List PaxosRequest) (a : Acceptor D) (x : Entry) (v : Proposal)
      → IsReady n (length reqs) a.plog
      → logged i j a.plog ≡ some x
      → x.accepted ≡ some v
      → any (promises i j b) (history st cfg reqs a) ≡ false
  unfolding history
  accepted_silences b [] a x v r h g = refl
  accepted_silences b (req ∷ reqs) a x v r h g =
      let (r', ev) = step-AllEvolve (length reqs) req a r in
      let (x', h', kept) = ev i j x h in
      let (v', g', _) = kept.accepted_stays v g in
      let first =
        promised_fresh st cfg n pos i j b req a x v (IsReady-least n (length reqs) a.plog r) h g in
      let rest = accepted_silences b reqs (do_handle_msg st cfg req a).1 x' v' r' h' g' in
      rw (first, rest) refl

  -- Bound to a ballot, an acceptor accepts no lower one.
  promised_refuses :
      (b p : ℕ) (reqs : List PaxosRequest) (a : Acceptor D) (x : Entry)
      → p < b
      → IsReady n (length reqs) a.plog
      → logged i j a.plog ≡ some x
      → b ≤ ballot x
      → any (accepts i j p) (history st cfg reqs a) ≡ false
  unfolding history
  promised_refuses b p [] a x lt r h low = refl
  promised_refuses b p (req ∷ reqs) a x lt r h low =
      let (r', ev) = step-AllEvolve (length reqs) req a r in
      let (x', h', kept) = ev i j x h in
      let rest =
        promised_refuses b p reqs (do_handle_msg st cfg req a).1 x' lt r' h'
          (omega (arith, kept.ballot_grows)) in
      elim (Bool-cases (accepts i j p (req.msg, (do_handle_msg st cfg req a).0))) [
        | inr no_ ↦ rw (no_, rest) refl
        | inl yes_ ↦
            absurd
              (omega (arith, (accepted_now st cfg n pos i j (length reqs) p req a r yes_).0 x h))
      ]

  -- No acceptor both accepts a ballot and promises a higher one, in whatever order.
  never_both :
      (b p : ℕ) (reqs : List PaxosRequest) (a : Acceptor D)
      → p < b
      → IsReady n (length reqs) a.plog
      → (any (accepts i j p) (history st cfg reqs a)
          && any (promises i j b) (history st cfg reqs a))
        ≡ false
  unfolding history
  never_both b p [] a lt r = refl
  never_both b p (req ∷ reqs) a lt r =
      let a' = (do_handle_msg st cfg req a).1 in
      let (r', _) = step-AllEvolve (length reqs) req a r in
      let rest = never_both b p reqs a' lt r' in
      elim (Bool-cases (accepts i j p (req.msg, (do_handle_msg st cfg req a).0))) [
        | inl yes_ ↦
            let (_, (y, v, h, g)) = accepted_now st cfg n pos i j (length reqs) p req a r yes_ in
            let later = accepted_silences b reqs a' y v r' h g in
            rw (yes_, accepts-promises i j p b req.msg _ yes_, later) refl
        | inr no_ ↦ elim (Bool-cases (promises i j b (req.msg, (do_handle_msg st cfg req a).0))) [
          | inl yes_ ↦
              let (x, h, low) = promised_now st cfg n pos i j (length reqs) b req a r yes_ in
              let later = promised_refuses b p reqs a' x lt r' h low in rw (no_, later) refl
          | inr none_ ↦ rw (no_, none_) rest
        ]
      ]

-- An acceptor and the requests that it gets.
pub record Replica (D : Type 0) : Type 0 where
  pub acceptor : Acceptor D
  pub requests : List PaxosRequest

-- Each acceptor has valid caches with room for its requests.
abbrev pub AllReady : {D : Type 0} → ℕ → List (Replica D) → Type 0
AllReady n [] = Unit {0}
AllReady n (r ∷ rs) = IsReady n (length r.requests) r.acceptor.plog × AllReady n rs

module _ {D : Type 0} (st : Storage D) (cfg : Configure) where
  abbrev pub exchanges : Replica D → List Exchange
  exchanges r = history st cfg r.requests r.acceptor

  -- How many of the acceptors accepted the ballot `p`, and promised the ballot `b`.
  abbrev pub accepted_by : ℕ → ℕ → ℕ → List (Replica D) → ℕ
  accepted_by i j p [] = 0
  accepted_by i j p (r ∷ rs) = vote (any (accepts i j p) (exchanges r)) + accepted_by i j p rs

  abbrev pub promised_by : ℕ → ℕ → ℕ → List (Replica D) → ℕ
  promised_by i j b [] = 0
  promised_by i j b (r ∷ rs) = vote (any (promises i j b) (exchanges r)) + promised_by i j b rs

  votes_apart :
      (n : ℕ) (pos : 0 < n) (i j p b : ℕ) (rs : List (Replica D))
      → p < b
      → AllReady n rs
      → accepted_by i j p rs + promised_by i j b rs ≤ length rs
  votes_apart n pos i j p b [] lt r = omega arith
  votes_apart n pos i j p b (x ∷ rs) lt (r, rest) =
      let apart = never_both st cfg n pos i j b p x.requests x.acceptor lt r in
      let ih = votes_apart n pos i j p b rs lt rest in ground arith

  -- A cluster of `total_acceptor_` acceptors, each with valid caches that have room for all its
  -- requests, handles any requests, each acceptor its own and in its own order. If for one entry of
  -- one instance a majority of them answered that they accepted the ballot `p` and a majority of them
  -- promised the ballot `b`, in the eyes of a proposer, then `b` is not above `p`.
  pub accepted_quorum_bounds :
      (n : ℕ) (pos : 0 < n) (i j p b : ℕ) (rs : List (Replica D))
      → length rs ≡ cfg.total_acceptor
      → AllReady n rs
      → majority cfg ≤ accepted_by i j p rs
      → majority cfg ≤ promised_by i j b rs
      → b ≤ p
  accepted_quorum_bounds n pos i j p b rs size r acc pro = elim (dec_lt p b) [
    | yes lt ↦ absurd (omega (arith, votes_apart n pos i j p b rs lt r))
    | no above ↦ omega arith
  ]

  -- A cluster of `total_acceptor_` acceptors, each with valid caches that have room for all its
  -- requests, handles any requests, each acceptor its own and in its own order. If for one entry of
  -- one instance each of two ballots was promised by a majority of them, in the eyes of a proposer, and
  -- answered as accepted by a majority of them, then the two are the same ballot.
  pub one_ballot :
      (n : ℕ) (pos : 0 < n) (i j p b : ℕ) (rs : List (Replica D))
      → length rs ≡ cfg.total_acceptor
      → AllReady n rs
      → majority cfg ≤ promised_by i j p rs
      → majority cfg ≤ accepted_by i j p rs
      → majority cfg ≤ promised_by i j b rs
      → majority cfg ≤ accepted_by i j b rs
      → p ≡ b
  one_ballot n pos i j p b rs size r pp ap_ pb ab = omega (
    arith,
    accepted_quorum_bounds n pos i j p b rs size r ap_ pb,
    accepted_quorum_bounds n pos i j b p rs size r ab pp,
  )
