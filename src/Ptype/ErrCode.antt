-- ===== src/Ptype/ErrCode.antt =====
-- `PaxosErrCode` of core/ptype.h.
use quarrel.Prelude.Int.{ℤ, pos, neg}

abbrev pub ok : ℤ
ok = pos 0

abbrev pub oom : ℤ
oom = neg 30001

abbrev pub timeout : ℤ
timeout = neg 30002

abbrev pub prepare_not_quoraum : ℤ
prepare_not_quoraum = neg 30003

abbrev pub plog_not_exist : ℤ
plog_not_exist = neg 30006

abbrev pub prepare_peer_value : ℤ
prepare_peer_value = neg 30007

abbrev pub invalid_plog_data : ℤ
invalid_plog_data = neg 30008

abbrev pub unmarshal_plog_fail : ℤ
unmarshal_plog_fail = neg 30009

abbrev pub proposal_not_exist : ℤ
proposal_not_exist = neg 30012

abbrev pub write_plog_fail : ℤ
write_plog_fail = neg 30013

abbrev pub invalid_proposal_req : ℤ
invalid_proposal_req = neg 30014

abbrev pub duplicate_proposal_req : ℤ
duplicate_proposal_req = neg 30015

abbrev pub need_catchup : ℤ
need_catchup = neg 30016

abbrev pub entry_not_exist : ℤ
entry_not_exist = neg 30017

abbrev pub acceptor_queue_full : ℤ
acceptor_queue_full = neg 30019

abbrev pub remote_need_catchup : ℤ
remote_need_catchup = neg 30020

abbrev pub working_in_propgress : ℤ
working_in_propgress = neg 30021

abbrev pub proposer_queue_full : ℤ
proposer_queue_full = neg 30022

abbrev pub setup_timeout_fail : ℤ
setup_timeout_fail = neg 30023

abbrev pub peer_accept_fail : ℤ
peer_accept_fail = neg 30024

abbrev pub invalid_accept_rsp : ℤ
invalid_accept_rsp = neg 30025

abbrev pub peer_accept_rejected : ℤ
peer_accept_rejected = neg 30026

abbrev pub peer_accept_other_value : ℤ
peer_accept_other_value = neg 30027
