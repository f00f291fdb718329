-- ===== src/Ptype/MsgType.antt =====
-- `PaxosMsgType` of core/ptype.h: the values that `type_` takes.
use quarrel.Prelude.{ℕ}

abbrev pub prepare_req : ℕ
prepare_req = 1

abbrev pub prepare_rsp : ℕ
prepare_rsp = 2

abbrev pub accept_req : ℕ
accept_req = 3

abbrev pub accept_rsp : ℕ
accept_rsp = 4

abbrev pub chosen_req : ℕ
chosen_req = 5

abbrev pub chosen_rsp : ℕ
chosen_rsp = 6

abbrev pub chore_catchup : ℕ
chore_catchup = 102

abbrev pub invalid_req : ℕ
invalid_req = 0xffffffff
