-- ===== src/Proposer/Ids/Apart.antt =====
-- Proposers of different servers never draw the same id.
use quarrel.Prelude.{
  ℕ, zero, suc, ◌+◌, ◌^◌, ◌≤◌, ◌<◌, ◌≡◌, ◌≢◌, inl, inr, refl, sym, ◌∙◌, ap, subst, List, [], ◌∷◌,
  Option, none, some, Option-cases, get_elem?, arith,
}
use quarrel.Prelude.Words.{u32}
use mathlib.Core.Option.{some-injective}
use quarrel.Prelude.Int.{pos}
use quarrel.Config.{Configure}
use quarrel.IdGen.{IdGen, set_greater_than, get_and_inc, reset}
use quarrel.IdGen.Laws.{
  Follows, Follows-apart, get_and_inc-Follows, set_greater_than-Follows, set_greater_than-step,
}
use quarrel.PaxosGroup.{PaxosGroup, create_group, get_member_id_by_svr_id}
use quarrel.PaxosGroup.Members.{
  IsMember, create_group-members, create_group_small, create_group-IsMember, IsMember-apart,
}
use quarrel.Proposer.State.{InstanceState, new_state}
use quarrel.Proposer.Route.{Proposer, respond}
use quarrel.Proposer.Route.Laws.{Event, asked, heard, happen, happen_all}
use quarrel.Proposer.Create.{instance_state, states_from, with_group, new_proposer}
use quarrel.Proposer.Ids.{MovesIds, respond-MovesIds, expired-KeepsIds, asked_ids}

-- The generator of the proposer `pid` among `n`.
record IsOwn (n pid : ℕ) (g : IdGen) : Type 0 where
  step : g.step ≡ n
  follows : Follows (pid + 1) g

reset-IsOwn : (n pid : ℕ) (g : IdGen) → IsOwn n pid g → IsOwn n pid (reset (pid + 1) g)
unfolding reset
reset-IsOwn n pid g o = record { step = o.step; follows = (0, omega arith) }

get_and_inc-IsOwn :
    (n pid : ℕ) (g : IdGen) → g.id + n < 2 ^ 64 → IsOwn n pid g → IsOwn n pid (get_and_inc g).1
unfolding get_and_inc
get_and_inc-IsOwn n pid g room o = record {
  step = o.step;
  follows = get_and_inc-Follows (pid + 1) g (omega (arith, o.step)) o.follows;
}

set_greater_than-IsOwn :
    (n pid v : ℕ) (g : IdGen)
    → 0 < n
    → v + n ≤ 2 ^ 64
    → IsOwn n pid g
    → IsOwn n pid (set_greater_than v g)
set_greater_than-IsOwn n pid v g n0 room o = record {
  step = set_greater_than-step v g ∙ o.step;
  follows =
      set_greater_than-Follows (pid + 1) v g (omega (arith, o.step)) (omega (arith, o.step))
        o.follows;
}

abbrev IsOwnState : ℕ → ℕ → InstanceState → Type 0
IsOwnState n pid s = (s.proposer_id ≡ pid) × IsOwn n pid s.ig

MovesIds-IsOwnState :
    (n pid v : ℕ) (s t : InstanceState)
    → 0 < n
    → pid + 1 < 2 ^ 32
    → v + n ≤ 2 ^ 64
    → MovesIds v s t
    → IsOwnState n pid s
    → IsOwnState n pid t
MovesIds-IsOwnState n pid v s t n0 small room (same, m) (p, o) = (
  same ∙ p,
  elim m [
    | inl e ↦ subst (IsOwn n pid) (sym e) o
    | inr k ↦ elim k [
      | inl e ↦ subst (IsOwn n pid) (sym e) (set_greater_than-IsOwn n pid v s.ig n0 room o)
      | inr e ↦
          let fits : u32 (s.proposer_id + 1) ≡ pid + 1 = omega (arith, small, p) in
          subst (IsOwn n pid) (sym (e ∙ ap (λ q. reset q s.ig) fits)) (reset-IsOwn n pid s.ig o)
    ]
  ],
)

-- Along the run no id comes near 2 ^ 64: neither the one that a request takes, nor one that a
-- response shows.
abbrev pub HasRoom : Configure → List Event → InstanceState → Type 0
HasRoom cfg [] s = Unit {0}
HasRoom cfg (asked opaque val i ∷ es) s =
    (s.ig.id + cfg.total_proposer < 2 ^ 64) × HasRoom cfg es (happen cfg (asked opaque val i) s)
HasRoom cfg (heard term none ∷ es) s = HasRoom cfg es (happen cfg (heard term none) s)
HasRoom cfg (heard term (some m) ∷ es) s =
    (m.proposal.pid + cfg.total_proposer ≤ 2 ^ 64)
    × HasRoom cfg es (happen cfg (heard term (some m)) s)

happen_all-IsOwnState :
    (cfg : Configure) (pid : ℕ) (es : List Event) (s : InstanceState)
    → 0 < cfg.total_proposer
    → pid + 1 < 2 ^ 32
    → HasRoom cfg es s
    → IsOwnState cfg.total_proposer pid s
    → IsOwnState cfg.total_proposer pid (happen_all cfg es s)
unfolding happen_all happen
happen_all-IsOwnState cfg pid [] s n0 small room o = o
happen_all-IsOwnState cfg pid (asked opaque val i ∷ es) s n0 small room (p, o) =
    let (same, m) = asked_ids cfg opaque val i s in
    happen_all-IsOwnState cfg pid es _ n0 small room.1 (
      same ∙ p,
      elim m [
        | inl e ↦ subst (IsOwn cfg.total_proposer pid) (sym e) o
        | inr e ↦
            subst (IsOwn cfg.total_proposer pid) (sym e)
              (get_and_inc-IsOwn cfg.total_proposer pid s.ig room.0 o)
      ],
    )
happen_all-IsOwnState cfg pid (heard term none ∷ es) s n0 small room (p, o) =
    let (same, e) = expired-KeepsIds cfg term s in
    happen_all-IsOwnState cfg pid es _ n0 small room
      (same ∙ p, subst (IsOwn cfg.total_proposer pid) (sym e) o)
happen_all-IsOwnState cfg pid (heard term (some m) ∷ es) s n0 small room o =
    happen_all-IsOwnState cfg pid es _ n0 small room.1 (
      MovesIds-IsOwnState cfg.total_proposer pid m.proposal.pid s
        (respond cfg term (some m) s).state n0 small room.0 (respond-MovesIds cfg term m s) o)

-- The state that the constructor makes for the instance `k`.
abbrev fresh_state : Configure → PaxosGroup → (ℕ → ℕ) → ℕ → InstanceState
fresh_state cfg g now k =
    instance_state (get_member_id_by_svr_id g k (pos cfg.local.id)) cfg.total_proposer (now k)

states_from_lem :
    (cfg : Configure) (g : PaxosGroup) (now : ℕ → ℕ) (j n i : ℕ) (s : InstanceState)
    → get_elem? (states_from cfg g now j n) i ≡ some s
    → s ≡ fresh_state cfg g now (j + i)
unfolding states_from
states_from_lem cfg g now j zero i s e = cc
states_from_lem cfg g now j (suc n) zero s e =
    sym (some-injective (fresh_state cfg g now j) s e) ∙ ap (fresh_state cfg g now) (omega arith)
states_from_lem cfg g now j (suc n) (suc i) s e =
    states_from_lem cfg g now (j + 1) n i s e ∙ ap (fresh_state cfg g now) (omega arith)

new_proposer_lem :
    (cfg : Configure) (now : ℕ → ℕ) (p : Proposer)
    → new_proposer cfg now ≡ some p
    → (g : PaxosGroup) × (create_group cfg.total_proposer ≡ some g)
      × (p.states ≡ states_from cfg g now 0 cfg.plog_inst_num)
unfolding new_proposer with_group
new_proposer_lem cfg now p e =
    let made : Option PaxosGroup → Option Proposer =
      λ o. elim o [ none ↦ none | some g ↦ some (with_group cfg now g) ] in
    elim (Option-cases (create_group cfg.total_proposer)) [
      | inl f ↦ let bad : none ≡ some p = sym (ap made f) ∙ e in cc
      | inr (g, f) ↦ (
        g,
        f,
        sym (
            ap (λ (q : Proposer). q.states)
              (some-injective (with_group cfg now g) p (sym (ap made f) ∙ e))),
      )
    ]

fresh_state-IsOwnState :
    (cfg : Configure) (g : PaxosGroup) (now : ℕ → ℕ) (k pid : ℕ)
    → IsMember g k cfg.local.id pid
    → IsOwnState cfg.total_proposer pid (fresh_state cfg g now k)
unfolding instance_state new_state
fresh_state-IsOwnState cfg g now k pid (e, lt) =
    subst (λ z. IsOwnState cfg.total_proposer pid (instance_state z cfg.total_proposer (now k)))
      (sym e) (refl, record { step = refl; follows = (0, omega arith) })

-- What a run from a new proposer leaves of the generator of an instance.
record Ran (cfg : Configure) (i : ℕ) (g : IdGen) : Type 0 where
  group : PaxosGroup
  made : create_group cfg.total_proposer ≡ some group
  pid : ℕ
  member : IsMember group i cfg.local.id pid
  own : IsOwn cfg.total_proposer pid g

happen_all-Ran :
    (cfg : Configure) (now : ℕ → ℕ) (p : Proposer) (i : ℕ) (s : InstanceState) (es : List Event)
    → new_proposer cfg now ≡ some p
    → cfg.local.id < cfg.total_proposer
    → get_elem? p.states i ≡ some s
    → HasRoom cfg es s
    → Ran cfg i (happen_all cfg es s).ig
happen_all-Ran cfg now p i s es new lt at room =
    let (g, made, states) = new_proposer_lem cfg now p new in
    let members = create_group-members cfg.total_proposer g made in
    let (pid, m) = create_group-IsMember cfg.total_proposer g i cfg.local.id made (omega arith) in
    let fresh : s ≡ fresh_state cfg g now (0 + i) =
      states_from_lem cfg g now 0 cfg.plog_inst_num i s
        (sym (ap (λ l. get_elem? l i) states) ∙ at) in
    let same : s ≡ fresh_state cfg g now i = fresh ∙ ap (fresh_state cfg g now) (omega arith) in
    record {
      group = g;
      made = made;
      pid = pid;
      member = m;
      own =
          (happen_all-IsOwnState cfg pid es s (omega arith)
            (omega (arith, m.1, create_group_small cfg.total_proposer g made)) room
            (subst (IsOwnState cfg.total_proposer pid) (sym same)
              (fresh_state-IsOwnState cfg g now i pid m))).1;
    }

-- Two servers with different ids below their common number of proposers, which is one that a group
-- exists for, and a state of one instance at the new proposer of each. After any requests, responses
-- and timeouts at both, in which no id comes within the number of proposers of 2 ^ 64, the ids that
-- the two proposers number their next proposals of that instance with are different, before the
-- cookie of the settings is put over them.
pub happen_all-apart :
    (cfg dfg : Configure) (now then_ : ℕ → ℕ) (p q : Proposer) (i : ℕ) (s t : InstanceState)
    (es fs : List Event)
    → cfg.total_proposer ≡ dfg.total_proposer
    → cfg.local.id < cfg.total_proposer
    → dfg.local.id < dfg.total_proposer
    → cfg.local.id ≢ dfg.local.id
    → new_proposer cfg now ≡ some p
    → new_proposer dfg then_ ≡ some q
    → get_elem? p.states i ≡ some s
    → get_elem? q.states i ≡ some t
    → HasRoom cfg es s
    → HasRoom dfg fs t
    → (happen_all cfg es s).ig.id ≢ (happen_all dfg fs t).ig.id
happen_all-apart cfg dfg now then_ p q i s t es fs same lt lt' ne new new' at at' room room' =
    let a = happen_all-Ran cfg now p i s es new lt at room in
    let b = happen_all-Ran dfg then_ q i t fs new' lt' at' room' in
    let one : a.group ≡ b.group =
      some-injective a.group b.group (sym a.made ∙ ap create_group same ∙ b.made) in
    let members = create_group-members cfg.total_proposer a.group a.made in
    let pids : a.pid ≢ b.pid =
      IsMember-apart cfg.total_proposer a.group i cfg.local.id dfg.local.id a.pid b.pid a.made
        (omega arith) (omega arith) ne a.member
        (subst (λ g. IsMember g i dfg.local.id b.pid) (sym one) b.member) in
    Follows-apart (a.pid + 1) (b.pid + 1) (happen_all cfg es s).ig (happen_all dfg fs t).ig
      (a.own.step ∙ same ∙ sym b.own.step) (omega arith)
      (omega (arith, a.own.step, a.member.1, members)) (omega arith)
      (omega (arith, a.own.step, b.member.1, members, ap (λ (g : PaxosGroup). g.members) one))
      (λ e. pids (omega arith)) a.own.follows b.own.follows
