-- ===== src/Proposer/State.antt =====
-- The state of one instance, and the operations on it that several handlers share.
use quarrel.Prelude.{
  ℕ, ◌+◌, ◌-◌, ◌/◌, ◌%◌, ◌^◌, List, [], ◌∷◌, Option, none, some, Bool, true, false, ◌&&◌, ◌||◌, not,
  ltb, leb, ◌==◌, if◌then◌else◌,
}
use quarrel.Prelude.Int.{ℤ, pos, neg}
use quarrel.Prelude.Words.{u8, u16, u32, sub_u64, all_ones}
use quarrel.Config.{Configure}
use quarrel.IdGen
use quarrel.IdGen.{IdGen}
use quarrel.Ptype.{Proposal, PaxosMsg}
use quarrel.Ptype.PaxosState
use quarrel.Ptype.MsgType

-- `ret` holds the codes that the client's promise was given, the last one first. C++ throws at the
-- second. `state_` is a phase and, in its highest bit, whether the promise was given a code early;
-- the model keeps the byte.
pub record InstanceState : Type 0 where
  pub proposer_id : ℕ  -- uint32_t
  pub last_chosen_from : ℕ  -- uint32_t
  pub last_chosen_entry : ℕ  -- uint64_t
  pub term : ℕ  -- uint64_t
  pub ig : IdGen
  pub vig : IdGen
  pub state : ℕ  -- uint8_t
  pub rsp_count : ℕ  -- uint8_t
  pub valid_rsp_count : ℕ  -- uint8_t
  pub ret : List ℤ
  pub req : Option PaxosMsg
  pub lastv : Option PaxosMsg

-- The constructor; `seconds` is the time of day. `state_` has no value before the first request.
unfoldable pub new_state : ℕ → ℕ → ℕ → InstanceState
new_state pid proposer_count seconds = record {
  proposer_id = pid;
  last_chosen_from = 2 ^ 32 - 1;
  last_chosen_entry = 0;
  term = 0;
  ig = record { id = pid + 1; step = proposer_count };
  vig = IdGen.id_gen_by_date seconds 0xff 1;
  state = 0;
  rsp_count = 0;
  valid_rsp_count = 0;
  ret = [];
  req = none;
  lastv = none;
}

-- `state_ & 0x7f` and `state_ & 0x80`
abbrev pub phase : ℕ → ℕ
phase s = s % 128

abbrev pub is_returned : ℕ → Bool
is_returned s = leb 128 s

-- `state_ |= 0x80`
abbrev pub returned : ℕ → ℕ
returned s = phase s + 128

-- What a handler does beside the change of the state: the broadcasts, the timers that it starts
-- (each by its term), and its value.
pub record Outcome : Type 0 where
  pub state : InstanceState
  pub sent : List PaxosMsg
  pub timers : List ℕ
  pub value : ℤ

-- `ret_.set_value(code)`
unfoldable pub set_value : ℤ → InstanceState → InstanceState
set_value code s = record s { ret = code ∷ s.ret }

-- `set_value` unless the client was told before.
unfoldable pub set_value_once : ℤ → InstanceState → InstanceState
unfolding set_value
set_value_once code s = if is_returned s.state then s else set_value code s

abbrev pub majority : Configure → ℕ
majority cfg = cfg.total_acceptor / 2 + 1

-- `UpdatePrepareId`
unfoldable pub update_prepare_id : ℕ → InstanceState → InstanceState
update_prepare_id pid s = record s { ig = IdGen.set_greater_than pid s.ig }

-- `UpdateChosenInfo`
unfoldable pub update_chosen_info : ℕ → ℕ → InstanceState → Bool × InstanceState
update_chosen_info chosen from s =
    if (chosen == 0) || (chosen == all_ones)
    then (false, s)
    else if ltb chosen s.last_chosen_entry
    then (false, s)
    else (
      true,
      record s {
        ig = IdGen.reset (u32 (s.proposer_id + 1)) s.ig;
        last_chosen_entry = chosen;
        last_chosen_from = u32 from;
      },
    )

-- `OnEntryChosen`; proposer 0 is the master.
unfoldable pub on_entry_chosen : PaxosMsg → Bool → InstanceState → ℤ × InstanceState
on_entry_chosen msg from_plog s =
    if from_plog && not (s.proposer_id == 0)
    then (neg 1, s)
    else (pos 0, (update_chosen_info msg.proposal.pentry msg.proposal.proposer s).1)

-- `canSkipPrepare`
unfoldable pub can_skip_prepare : Proposal → InstanceState → Bool
can_skip_prepare pp s =
    (s.last_chosen_entry == sub_u64 pp.pentry 1)
    && ((s.last_chosen_from == s.proposer_id) && (pp.pid == u32 (s.proposer_id + 1)))

-- `setupWaitState` with no promise and no message.
unfoldable pub setup_phase : ℕ → InstanceState → InstanceState
setup_phase state s = record s { rsp_count = 0; valid_rsp_count = 0; state = u8 state }

-- `setupWaitState` with a new promise and the request to keep. The timeout is always set up, since
-- `TimingWheel::AddTimeout` returns true.
unfoldable pub setup_wait_state : ℕ → PaxosMsg → InstanceState → InstanceState
unfolding setup_phase
setup_wait_state state pm s = record (setup_phase state s) { ret = []; req = some pm }

-- The fields that a message gets when it becomes an accept request.
unfoldable pub as_accept_req : Configure → InstanceState → PaxosMsg → PaxosMsg
as_accept_req cfg s m = record m {
  from = cfg.local.id;
  type = MsgType.accept_req;
  proposal = record m.proposal {
    status = PaxosState.accepted;
    last_chosen = s.last_chosen_entry;
    last_chosen_from = u16 s.last_chosen_from;
  };
}
