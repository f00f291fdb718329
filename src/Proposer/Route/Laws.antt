-- ===== src/Proposer/Route/Laws.antt =====
-- One code for each request, over any run of an instance.
use quarrel.Prelude.{
  ℕ, ◌≡◌, ◌⊎◌, inl, inr, refl, List, [], ◌∷◌, Option, none, some, true, false, arith, Bool-cases,
}
use quarrel.Config.{Configure}
use quarrel.Ptype.{PaxosMsg}
use quarrel.Ptype.PaxosState
use quarrel.Proposer.State.{
  InstanceState, phase, set_value, set_value_once, setup_wait_state, setup_phase,
}
use quarrel.Proposer.Propose.{propose_async}
use quarrel.Proposer.Respond.{handle_prepare_rsp, handle_accept_rsp}
use quarrel.Proposer.Respond.Once.{
  IsServed, is_open, handle_prepare_rsp-IsServed, handle_accept_rsp-IsServed,
}
use quarrel.Proposer.Route.{respond, expire, is_late, ignored}

-- What can happen to an instance: a request of a client, a response, or a timeout (no message).
pub data Event : Type 0 where
  asked : ℕ → List ℕ → ℕ → Event
  heard : ℕ → Option PaxosMsg → Event

unfoldable pub happen : Configure → Event → InstanceState → InstanceState
unfolding propose_async respond
happen cfg (asked opaque val i) s = (propose_async cfg opaque val i s).state
happen cfg (heard term msg) s = (respond cfg term msg s).state

unfoldable pub happen_all : Configure → List Event → InstanceState → InstanceState
unfolding happen
happen_all cfg [] s = s
happen_all cfg (e ∷ es) s = happen_all cfg es (happen cfg e s)

expire-IsServed : (s : InstanceState) → is_open s ≡ true → IsServed s → IsServed (expire s)
unfolding expire set_value_once set_value
expire-IsServed s o h = ground arith

is_late_open : (term : ℕ) (s : InstanceState) → is_late term s ≡ false → is_open s ≡ true
is_late_open term s h = ground arith

pub respond_cases :
    (cfg : Configure) (term : ℕ) (m : PaxosMsg) (s : InstanceState)
    → (respond cfg term (some m) s ≡ ignored s)
      ⊎ ((phase s.state ≡ PaxosState.preparing)
          × (respond cfg term (some m) s ≡ handle_prepare_rsp cfg m s))
      ⊎ ((phase s.state ≡ PaxosState.accepting)
          × (respond cfg term (some m) s ≡ handle_accept_rsp cfg m s))
unfolding respond
respond_cases cfg term m s = ground arith

expire_cases :
    (cfg : Configure) (term : ℕ) (s : InstanceState)
    → (respond cfg term none s ≡ ignored s)
      ⊎ ((is_open s ≡ true) × (respond cfg term none s ≡ ignored (expire s)))
unfolding respond
expire_cases cfg term s = elim (Bool-cases (is_late term s)) [
  | inl e ↦ inl (rw e refl)
  | inr e ↦ inr (is_late_open term s e, rw e refl)
]

respond-IsServed :
    (cfg : Configure) (term : ℕ) (msg : Option PaxosMsg) (s : InstanceState)
    → IsServed s
    → IsServed (respond cfg term msg s).state
respond-IsServed cfg term none s h = elim (expire_cases cfg term s) [
  | inl e ↦ rw e h
  | inr (o, e) ↦ rw e (expire-IsServed s o h)
]
respond-IsServed cfg term (some m) s h = elim (respond_cases cfg term m s) [
  | inl e ↦ rw e h
  | inr o ↦ elim o [
    | inl (_, e) ↦ rw e (handle_prepare_rsp-IsServed cfg m s h)
    | inr (_, e) ↦ rw e (handle_accept_rsp-IsServed cfg m s h)
  ]
]

propose_async_step :
    (cfg : Configure) (opaque : ℕ) (val : List ℕ) (i : ℕ) (s : InstanceState)
    → IsServed s ⊎ (is_open s ≡ false)
    → IsServed (propose_async cfg opaque val i s).state
unfolding propose_async setup_wait_state setup_phase
propose_async_step cfg opaque val i s h = ground arith

happen-IsServed :
    (cfg : Configure) (e : Event) (s : InstanceState) → IsServed s → IsServed (happen cfg e s)
unfolding happen
happen-IsServed cfg (asked opaque val i) s h = propose_async_step cfg opaque val i s (inl h)
happen-IsServed cfg (heard term msg) s h = respond-IsServed cfg term msg s h

pub happen_all-IsServed :
    (cfg : Configure) (es : List Event) (s : InstanceState)
    → IsServed s
    → IsServed (happen_all cfg es s)
unfolding happen_all
happen_all-IsServed cfg [] s h = h
happen_all-IsServed cfg (e ∷ es) s h =
    happen_all-IsServed cfg es (happen cfg e s) (happen-IsServed cfg e s h)

-- After a request of a client at an idle instance, and any requests, responses and timeouts after it:
-- the promise of the last request that was taken up has been given exactly one code if that request is
-- over; and if it is not over, one code if the flag in the state is set, and none if it is not.
pub propose_async-IsServed :
    (cfg : Configure) (opaque : ℕ) (val : List ℕ) (i : ℕ) (es : List Event) (s : InstanceState)
    → is_open s ≡ false
    → IsServed (happen_all cfg es (propose_async cfg opaque val i s).state)
propose_async-IsServed cfg opaque val i es s h =
    happen_all-IsServed cfg es _ (propose_async_step cfg opaque val i s (inr h))
