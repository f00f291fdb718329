-- ===== src/Conn.antt =====
-- network/conn.h: the connection to a remote acceptor, and which request an answer belongs to.
pub mod Pending
pub mod Waiting
pub mod Answers
pub mod Manager
use quarrel.Prelude.{ℕ, List, [], ◌∷◌, Option, none, some, ◌++◌, if◌then◌else◌}
use quarrel.Prelude.Int.{ℤ, pos, is_zero}
use quarrel.IdGen
use quarrel.IdGen.{IdGen}
use quarrel.LruMap
use quarrel.LruMap.{LruMap}
use quarrel.Ptype.{PaxosMsg}

-- A callback is a number that names it.
pub record RpcReqData : Type 0 where
  pub timeout_ms : ℕ  -- uint32_t
  pub cb : ℕ
  pub datum : PaxosMsg

pub record RemoteConn : Type 0 where
  pub reqid : IdGen
  pub req_to_remote : LruMap RpcReqData

-- Whom `HandleRecv` hands a message to: the callback of a request, or `onReq_`.
pub data Delivery : Type 0 where
  response : ℕ → PaxosMsg → Delivery
  incoming : PaxosMsg → Delivery

unfoldable pub remote_conn : ℕ → ℕ → RemoteConn
remote_conn concur_num seconds = record {
  reqid = IdGen.id_gen_by_date seconds 0xff 1;
  req_to_remote = LruMap.init concur_num;
}

-- The first block of `DoRpcRequest`, under the lock: the request with its id, and the connection.
unfoldable pub register : RpcReqData → RemoteConn → RpcReqData × RemoteConn
register req c =
    let (id, reqid) = IdGen.get_and_inc c.reqid in
    let req' = record req { datum = record req.datum { reqid = id } } in
    (req', record { reqid = reqid; req_to_remote = LruMap.put id req' c.req_to_remote })

-- The last block, under the lock again, where the write has failed.
unfoldable pub give_up : ℕ → RemoteConn → RemoteConn
give_up id c = record c { req_to_remote = (LruMap.del id c.req_to_remote).1 }

-- `DoWrite` is virtual: a parameter, on a state of its own.
module _ {W : Type 0} (do_write : PaxosMsg → W → ℤ × W) where
  unfoldable pub do_rpc_request : RpcReqData → W × RemoteConn → ℤ × (W × RemoteConn)
  unfolding register give_up
  do_rpc_request req (w, c) =
      let (req', c') = register req c in
      let (ret, w') = do_write req'.datum w in
      if is_zero ret then (ret, (w', c')) else (ret, (w', give_up req'.datum.reqid c'))

unfoldable pub handle_recv : PaxosMsg → RemoteConn → Delivery × RemoteConn
handle_recv req c =
    let (rd, m) = LruMap.get_ptr req.reqid c.req_to_remote in
    elim rd [
      | none ↦ (incoming req, record c { req_to_remote = m })
      | some origin_req ↦
          (response origin_req.cb req, record c { req_to_remote = (LruMap.del req.reqid m).1 })
    ]

-- What may happen to a connection between two times at which no thread holds the lock.
pub data Event : Type 0 where
  registering : RpcReqData → Event
  giving_up : ℕ → Event
  receiving : PaxosMsg → Event

unfoldable pub step : Event → RemoteConn → RemoteConn
unfolding register give_up handle_recv
step (registering req) c = (register req c).1
step (giving_up id) c = give_up id c
step (receiving msg) c = (handle_recv msg c).1

unfoldable pub run : List Event → RemoteConn → RemoteConn
unfolding step
run [] c = c
run (e ∷ es) c = run es (step e c)
