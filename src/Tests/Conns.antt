-- ===== src/Tests/Conns.antt =====
-- Connections at work.
use quarrel.Prelude.{ℕ, ◌+◌, ◌≡◌, refl, List, [], ◌∷◌, ◌++◌, map, length, arith}
use mathlib.Core.List.{reverse}
use quarrel.Prelude.Int.{ℤ, pos}
use quarrel.Ptype.{PaxosMsg, alloc_proposal_msg}
use quarrel.Config.{AddrInfo}
use quarrel.LruMap
use quarrel.LruMap.Laws.{init-IsValid}
use quarrel.Conn.{
  RpcReqData, RemoteConn, Event, registering, giving_up, receiving, run, do_rpc_request,
}
use quarrel.Conn.Answers.{IsAnsweredOnce, do_rpc_request-IsAnsweredOnce}
use quarrel.Conn.Manager.{
  ConnMng, create_conn, get_all_conn, locals, remotes, same_addr, same_text,
  get_all_conn-create_conn,
}
use quarrel.Tests.Logs.{config}

abbrev idle : RemoteConn
idle = record { reqid = record { id = 5; step = 1 }; req_to_remote = LruMap.init 3 }

abbrev request : ℕ → RpcReqData
request cb = record { timeout_ms = 20; cb = cb; datum = alloc_proposal_msg 0 }

abbrev message : ℕ → PaxosMsg
message id = record (alloc_proposal_msg 0) { reqid = id }

-- The number of messages written.
abbrev write_one : PaxosMsg → ℕ → ℤ × ℕ
write_one msg w = (pos 0, w + 1)

-- Two more requests, one of which cannot be written, and the answer to the other.
abbrev meanwhile : List Event
meanwhile =
    registering (request 8) ∷ registering (request 9) ∷ giving_up 6 ∷ receiving (message 7) ∷ []

do_rpc_request-IsAnsweredOnce_example :
    IsAnsweredOnce 4
      (message 5)
      (message 5)
      (run meanwhile (do_rpc_request write_one (request 4) (0, idle)).1.1)
unfolding alloc_proposal_msg LruMap.init
do_rpc_request-IsAnsweredOnce_example =
    do_rpc_request-IsAnsweredOnce write_one (request 4) 0 idle meanwhile (message 5) (message 5)
      (init-IsValid 3) (omega arith) refl (tt, (tt, ((λ e. omega arith), ((λ e. omega arith), tt))))
      (omega arith) (omega arith) refl refl

abbrev peer : ℕ → AddrInfo
peer id = record { id = id; type = 3; addr = 49 ∷ id ∷ [] }

abbrev fresh : ConnMng ℕ
fresh = record {
  config = record config { local = peer 2; peer = peer 0 ∷ peer 1 ∷ peer 2 ∷ [] };
  conn = [];
}

get_all_conn-create_conn_example :
    ((create_conn (λ (a : AddrInfo). a.id) fresh).0 ≡ length fresh.config.peer)
    × (get_all_conn 7 (create_conn (λ (a : AddrInfo). a.id) fresh).1
        ≡ reverse (map (λ (a : AddrInfo). a.id) (locals fresh.config.local fresh.config.peer))
          ++ map (λ (a : AddrInfo). a.id) (remotes fresh.config.local fresh.config.peer))
get_all_conn-create_conn_example = get_all_conn-create_conn (λ (a : AddrInfo). a.id) fresh 7

-- The connections are not in the order of the server ids.
local_first : get_all_conn 7 (create_conn (λ (a : AddrInfo). a.id) fresh).1 ≡ 2 ∷ 0 ∷ 1 ∷ []
unfolding create_conn get_all_conn same_addr same_text
local_first = refl
