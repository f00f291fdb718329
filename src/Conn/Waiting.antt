-- ===== src/Conn/Waiting.antt =====
-- How the requests that wait for an answer change, and that few later ones do not push one out.
use quarrel.Prelude.{
  ℕ, suc, ◌+◌, ◌*◌, ◌^◌, ◌≤◌, ◌<◌, ◌≡◌, ◌≢◌, refl, sym, subst, ◌∙◌, ap, List, [], ◌∷◌, none, some,
  take, arith, Option-cases, inl, inr,
}
use quarrel.Prelude.Assoc.{lookup, erase, touch, lookup-erase_ne, erase_absent}
use quarrel.Ptype.{PaxosMsg}
use quarrel.IdGen
use quarrel.IdGen.{IdGen}
use quarrel.LruMap
use quarrel.LruMap.{LruMap, put}
use quarrel.LruMap.Laws.{IsValid, contents}
use quarrel.LruMap.Laws.Put.{contents-put, put-IsValid, max_size-put}
use quarrel.LruMap.Laws.Reads.{get_ptr-lookup, get_ptr-IsValid, del_lem, max_size-get_ptr}
use quarrel.Conn.{
  RpcReqData, RemoteConn, Delivery, response, incoming, register, give_up, handle_recv, Event,
  registering, giving_up, receiving, step, run,
}
use quarrel.Conn.Pending.{depth, depth-erase, lookup-take}

abbrev pub pending : RemoteConn → List (ℕ × RpcReqData)
pending c = contents c.req_to_remote

-- Erasing after a use, or erasing.
erase-touch : (k : ℕ) (m : List (ℕ × RpcReqData)) → erase k (touch k m) ≡ erase k m
unfolding erase touch
erase-touch k m = ground arith

touch_miss : (k : ℕ) (m : List (ℕ × RpcReqData)) → lookup k m ≡ none → touch k m ≡ erase k m
unfolding touch
touch_miss k m e = rw (e, touch) (sym (erase_absent k m e))

max_size-del : (k : ℕ) (m : LruMap RpcReqData) → (LruMap.del k m).1.max_size ≡ m.max_size
unfolding LruMap.del
max_size-del k m = ground arith

-- What one message does: whom it goes to, and that no request of its id is left.
pub record Received (msg : PaxosMsg) (c : RemoteConn) (out : Delivery × RemoteConn) : Type 0 where
  pub delivery :
      out.0
      ≡ (elim (lookup msg.reqid (pending c)) [ none ↦ incoming msg | some rd ↦ response rd.cb msg ])
  pub rest : pending out.1 ≡ erase msg.reqid (pending c)
  pub reqid : out.1.reqid ≡ c.reqid
  pub max_size : out.1.req_to_remote.max_size ≡ c.req_to_remote.max_size
  pub valid : IsValid out.1.req_to_remote

handle_recv_miss :
    (msg : PaxosMsg) (c : RemoteConn)
    → (LruMap.get_ptr msg.reqid c.req_to_remote).0 ≡ none
    → handle_recv msg c
      ≡ (incoming msg, record c { req_to_remote = (LruMap.get_ptr msg.reqid c.req_to_remote).1 })
unfolding handle_recv
handle_recv_miss msg c e = rw (e, handle_recv) refl

handle_recv_hit :
    (msg : PaxosMsg) (c : RemoteConn) (rd : RpcReqData)
    → (LruMap.get_ptr msg.reqid c.req_to_remote).0 ≡ some rd
    → handle_recv msg c ≡ (
      response rd.cb msg,
      record c {
        req_to_remote = (LruMap.del msg.reqid (LruMap.get_ptr msg.reqid c.req_to_remote).1).1;
      },
    )
unfolding handle_recv
handle_recv_hit msg c rd e = rw (e, handle_recv) refl

pub handle_recv_lem :
    (msg : PaxosMsg) (c : RemoteConn) → IsValid c.req_to_remote → Received msg c (handle_recv msg c)
handle_recv_lem msg c h =
    let g = get_ptr-lookup msg.reqid c.req_to_remote h in
    let used = get_ptr-IsValid msg.reqid c.req_to_remote h in
    elim (Option-cases (lookup msg.reqid (pending c))) [
      | inl e ↦ rw (handle_recv_miss msg c (g.0 ∙ e)) (record {
        delivery = rw e refl;
        rest = g.1 ∙ touch_miss msg.reqid (pending c) e;
        reqid = refl;
        max_size = max_size-get_ptr msg.reqid c.req_to_remote;
        valid = used;
      })
      | inr (rd, e) ↦
          let (cut, _, _, valid) =
            del_lem msg.reqid (LruMap.get_ptr msg.reqid c.req_to_remote).1 used in
          rw (handle_recv_hit msg c rd (g.0 ∙ e)) (record {
            delivery = rw e refl;
            rest = cut ∙ ap (erase msg.reqid) g.1 ∙ erase-touch msg.reqid (pending c);
            reqid = refl;
            max_size = max_size-del msg.reqid _ ∙ max_size-get_ptr msg.reqid c.req_to_remote;
            valid = valid;
          })
    ]

-- A request that waits with at most `n` others in front of it, its id behind the generator.
pub record Waiting (id : ℕ) (rd : RpcReqData) (n : ℕ) (c : RemoteConn) : Type 0 where
  pub found : lookup id (pending c) ≡ some rd
  pub near : depth id (pending c) ≤ n
  pub passed : id < c.reqid.id
  pub valid : IsValid c.req_to_remote

-- The event is about no request of the id.
abbrev pub Spares : ℕ → Event → Type 0
Spares id (registering req) = Unit {0}
Spares id (giving_up j) = j ≢ id
Spares id (receiving msg) = msg.reqid ≢ id

abbrev pub AllSpare : ℕ → List Event → Type 0
AllSpare id [] = Unit {0}
AllSpare id (e ∷ es) = Spares id e × AllSpare id es

abbrev pub registrations : List Event → ℕ
registrations [] = 0
registrations (registering req ∷ es) = suc (registrations es)
registrations (giving_up j ∷ es) = registrations es
registrations (receiving msg ∷ es) = registrations es

pub register_lem :
    (req : RpcReqData) (c : RemoteConn)
    → IsValid c.req_to_remote
    → pending (register req c).1
      ≡ take c.req_to_remote.max_size
          ((c.reqid.id, (register req c).0) ∷ erase c.reqid.id (pending c))
unfolding register IdGen.get_and_inc
register_lem req c h = contents-put c.reqid.id _ c.req_to_remote h

pub register-IsValid :
    (req : RpcReqData) (c : RemoteConn)
    → IsValid c.req_to_remote
    → IsValid (register req c).1.req_to_remote
unfolding register
register-IsValid req c h = put-IsValid _ _ c.req_to_remote h

pub register-reqid :
    (req : RpcReqData) (c : RemoteConn)
    → c.reqid.id + c.reqid.step < 2 ^ 64
    → ((register req c).1.reqid.id ≡ c.reqid.id + c.reqid.step)
      × ((register req c).1.reqid.step ≡ c.reqid.step)
unfolding register IdGen.get_and_inc
register-reqid req c h = (omega arith, refl)

pub register-max_size :
    (req : RpcReqData) (c : RemoteConn)
    → (register req c).1.req_to_remote.max_size ≡ c.req_to_remote.max_size
unfolding register
register-max_size req c = max_size-put _ _ c.req_to_remote

register-Waiting :
    (id : ℕ) (rd req : RpcReqData) (n : ℕ) (c : RemoteConn)
    → suc n < c.req_to_remote.max_size
    → c.reqid.id + c.reqid.step < 2 ^ 64
    → Waiting id rd n c
    → Waiting id rd (suc n) (register req c).1
unfolding depth lookup
register-Waiting id rd req n c room small w =
    let other : c.reqid.id ≢ id = λ e. omega (arith, w.passed, e) in
    let far = depth-erase id c.reqid.id (pending c) other in
    let kept = lookup-erase_ne c.reqid.id id (pending c) other ∙ w.found in
    let front : List (ℕ × RpcReqData) =
      (c.reqid.id, (register req c).0) ∷ erase c.reqid.id (pending c) in
    let at : lookup id front ≡ some rd = ground arith in
    let deep : depth id front ≤ suc n = ground (arith, w.near) in
    let (found, near) = lookup-take c.req_to_remote.max_size id rd front at (omega arith) in
    record {
      found = rw (register_lem req c w.valid) found;
      near = rw (register_lem req c w.valid) (omega arith);
      passed = omega (arith, w.passed, (register-reqid req c small).0);
      valid = register-IsValid req c w.valid;
    }

cut-Waiting :
    (id j : ℕ) (rd : RpcReqData) (n : ℕ) (c d : RemoteConn)
    → j ≢ id
    → pending d ≡ erase j (pending c)
    → d.reqid ≡ c.reqid
    → IsValid d.req_to_remote
    → Waiting id rd n c
    → Waiting id rd n d
cut-Waiting id j rd n c d ne e same valid w = record {
  found = rw e (lookup-erase_ne j id (pending c) ne ∙ w.found);
  near = rw e (omega (arith, depth-erase id j (pending c) ne, w.near));
  passed = rw same w.passed;
  valid = valid;
}

Waiting-le :
    (id n m : ℕ) (rd : RpcReqData) (c : RemoteConn) → n ≤ m → Waiting id rd n c → Waiting id rd m c
Waiting-le id n m rd c le w = record {
  found = w.found;
  near = omega (arith, w.near, le);
  passed = w.passed;
  valid = w.valid;
}

-- The ids of `n` more registrations fit into 64 bits.
abbrev pub Fits : ℕ → IdGen → Type 0
Fits n g = g.id + n * g.step < 2 ^ 64

pub register-Fits :
    (req : RpcReqData) (c : RemoteConn) (n : ℕ)
    → Fits (suc n) c.reqid
    → (c.reqid.id + c.reqid.step < 2 ^ 64) × Fits n (register req c).1.reqid
register-Fits req c n fits =
    let small : c.reqid.id + c.reqid.step < 2 ^ 64 = omega arith in
    let (id, step) = register-reqid req c small in (small, rw (id, step) (omega arith))

-- Few enough registrations leave a request waiting, whatever else happens to other requests.
pub run-Waiting :
    (es : List Event) (id n : ℕ) (rd : RpcReqData) (c : RemoteConn)
    → AllSpare id es
    → n + registrations es < c.req_to_remote.max_size
    → c.reqid.id + registrations es * c.reqid.step < 2 ^ 64
    → Waiting id rd n c
    → Waiting id rd (n + registrations es) (run es c)
unfolding run step give_up
run-Waiting [] id n rd c spare room small w = Waiting-le id n (n + 0) rd c (omega arith) w
run-Waiting (registering req ∷ es) id n rd c spare room small w =
    let (now, later) = register-Fits req c (registrations es) small in
    Waiting-le id (suc n + registrations es) _ rd _ (omega arith) (
      run-Waiting es id (suc n) rd (register req c).1 spare.1
        (omega (arith, register-max_size req c)) later
        (register-Waiting id rd req n c (omega arith) now w))
run-Waiting (giving_up j ∷ es) id n rd c spare room small w =
    let (cut, _, _, valid) = del_lem j c.req_to_remote w.valid in
    run-Waiting es id n rd (give_up j c) spare.1 (omega (arith, max_size-del j c.req_to_remote))
      small (cut-Waiting id j rd n c (give_up j c) spare.0 cut refl valid w)
run-Waiting (receiving msg ∷ es) id n rd c spare room small w =
    let r = handle_recv_lem msg c w.valid in
    run-Waiting es id n rd (handle_recv msg c).1 spare.1 (omega (arith, r.max_size))
      (subst (Fits (registrations es)) (sym r.reqid) small)
      (cut-Waiting id msg.reqid rd n c (handle_recv msg c).1 spare.0 r.rest r.reqid r.valid w)
