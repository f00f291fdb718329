-- ===== src/Ptype/PaxosState.antt =====
-- `PaxosState` of core/ptype.h: the values that `status_` and `state_` take.
use quarrel.Prelude.{ℕ}

abbrev pub init : ℕ
init = 0

abbrev pub prepared : ℕ
prepared = 1

abbrev pub promised : ℕ
promised = 2

abbrev pub accepted : ℕ
accepted = 3

abbrev pub chosen : ℕ
chosen = 4

abbrev pub already_chosen : ℕ
already_chosen = 5

abbrev pub promised_failed : ℕ
promised_failed = 6

abbrev pub accepted_failed : ℕ
accepted_failed = 7

abbrev pub commit_failed : ℕ
commit_failed = 8

abbrev pub invalid_proposal : ℕ
invalid_proposal = 9

abbrev pub local_lag_behind : ℕ
local_lag_behind = 10

abbrev pub remote_lag_behind : ℕ
remote_lag_behind = 11

abbrev pub fast_accept_failed : ℕ
fast_accept_failed = 12

abbrev pub preparing : ℕ
preparing = 21

abbrev pub accepting : ℕ
accepting = 23
