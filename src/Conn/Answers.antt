-- ===== src/Conn/Answers.antt =====
-- The answer to a request reaches its callback, once.
use quarrel.Prelude.{ℕ, suc, ◌+◌, ◌*◌, ◌^◌, ◌<◌, ◌≡◌, refl, ◌∙◌, List, ◌∷◌, none, some, true, arith}
use quarrel.Prelude.Int.{ℤ, is_zero}
use quarrel.Prelude.Assoc.{lookup, erase, lookup-erase_self}
use quarrel.Ptype.{PaxosMsg}
use quarrel.LruMap.Laws.{IsValid}
use quarrel.Conn.{
  RpcReqData, RemoteConn, response, incoming, register, handle_recv, Event, run, do_rpc_request,
}
use quarrel.Conn.Pending.{depth, lookup-take}
use quarrel.Conn.Waiting.{
  pending, handle_recv_lem, Waiting, AllSpare, registrations, register_lem, register-IsValid,
  run-Waiting, Fits, register-Fits, register-reqid, register-max_size,
}

register_waits :
    (req : RpcReqData) (c : RemoteConn)
    → IsValid c.req_to_remote
    → 0 < c.req_to_remote.max_size
    → 0 < c.reqid.step
    → Fits 1 c.reqid
    → Waiting c.reqid.id (register req c).0 0 (register req c).1
unfolding lookup depth
register_waits req c h room grows fits =
    let front : List (ℕ × RpcReqData) =
      (c.reqid.id, (register req c).0) ∷ erase c.reqid.id (pending c) in
    let at : lookup c.reqid.id front ≡ some (register req c).0 = ground arith in
    let first : depth c.reqid.id front ≡ 0 = ground arith in
    let (found, near) =
      lookup-take c.req_to_remote.max_size c.reqid.id (register req c).0 front at (omega arith) in
    record {
      found = rw (register_lem req c h) found;
      near = rw (register_lem req c h) (omega arith);
      passed = omega (arith, (register-reqid req c (omega (arith, fits))).0);
      valid = register-IsValid req c h;
    }

-- The callback of the request takes the message, and the next message with its id is nobody's answer.
abbrev pub IsAnsweredOnce : ℕ → PaxosMsg → PaxosMsg → RemoteConn → Type 0
IsAnsweredOnce cb first second c =
    ((handle_recv first c).0 ≡ response cb first)
    × ((handle_recv second (handle_recv first c).1).0 ≡ incoming second)

Waiting-IsAnsweredOnce :
    (id : ℕ) (rd : RpcReqData) (n : ℕ) (first second : PaxosMsg) (c : RemoteConn)
    → first.reqid ≡ id
    → second.reqid ≡ id
    → Waiting id rd n c
    → IsAnsweredOnce rd.cb first second c
Waiting-IsAnsweredOnce id rd n first second c e f w =
    let a = handle_recv_lem first c w.valid in
    let b = handle_recv_lem second (handle_recv first c).1 a.valid in
    let gone : lookup second.reqid (pending (handle_recv first c).1) ≡ none =
      rw (a.rest, e, f) (lookup-erase_self id (pending c) w.valid.linked.keys) in
    let found : lookup first.reqid (pending c) ≡ some rd = rw e w.found in
    (a.delivery ∙ rw found refl, b.delivery ∙ rw gone refl)

module _ {W : Type 0} (do_write : PaxosMsg → W → ℤ × W) where
  do_rpc_request_lem :
      (req : RpcReqData) (w : W) (c : RemoteConn)
      → is_zero (do_write (register req c).0.datum w).0 ≡ true
      → (do_rpc_request do_write req (w, c)).1.1 ≡ (register req c).1
  unfolding do_rpc_request
  do_rpc_request_lem req w c ok = rw (ok, do_rpc_request) refl

  -- A request of a valid connection with room for a request, whose write succeeds, waits. Whatever
  -- requests are registered then, fewer than the map holds, whatever messages come in and whatever
  -- writes of other requests fail, as long as none has the request's id and the ids stay below 2 ^ 64:
  -- the next message with its id, of whatever type, goes to the request's callback, and one more
  -- message with that id goes to no callback.
  pub do_rpc_request-IsAnsweredOnce :
      (req : RpcReqData) (w : W) (c : RemoteConn) (es : List Event) (first second : PaxosMsg)
      → IsValid c.req_to_remote
      → 0 < c.reqid.step
      → is_zero (do_write (register req c).0.datum w).0 ≡ true
      → AllSpare c.reqid.id es
      → registrations es < c.req_to_remote.max_size
      → c.reqid.id + suc (registrations es) * c.reqid.step < 2 ^ 64
      → first.reqid ≡ c.reqid.id
      → second.reqid ≡ c.reqid.id
      → IsAnsweredOnce req.cb first second (run es (do_rpc_request do_write req (w, c)).1.1)
  unfolding register
  do_rpc_request-IsAnsweredOnce req w c es first second h grows ok spare room fits e f =
      let (now, later) = register-Fits req c (registrations es) fits in
      let start = register_waits req c h (omega arith) grows (omega (arith, now)) in
      let waits =
        run-Waiting es c.reqid.id 0 (register req c).0 (register req c).1 spare
          (omega (arith, register-max_size req c)) later start in
      rw (do_rpc_request_lem req w c ok) (
        Waiting-IsAnsweredOnce c.reqid.id (register req c).0 (0 + registrations es) first second _ e
          f waits)
