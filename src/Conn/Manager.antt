-- ===== src/Conn/Manager.antt =====
-- `ConnMng` of network/conn.h and network/conn.cpp.
use quarrel.Prelude.{
  ℕ, ◌≡◌, refl, sym, ap, ◌∙◌, List, [], ◌∷◌, ◌++◌, map, length, Bool, true, false, ◌&&◌, ◌==◌,
  if◌then◌else◌,
}
use mathlib.Core.List.{reverse, reverse_aux, reverse_aux-eq, append-nil, append_assoc}
use quarrel.Config.{AddrInfo, Configure}

-- `operator==` of std::string
unfoldable pub same_text : List ℕ → List ℕ → Bool
same_text [] [] = true
same_text [] (y ∷ ys) = false
same_text (x ∷ xs) [] = false
same_text (x ∷ xs) (y ∷ ys) = (x == y) && same_text xs ys

-- `operator==` of AddrInfo; the test of the addresses in memory is only faster.
unfoldable pub same_addr : AddrInfo → AddrInfo → Bool
unfolding same_text
same_addr left right =
    (left.id == right.id) && (left.type == right.type) && same_text left.addr right.addr

pub record ConnMng (C : Type 0) : Type 0 where
  pub config : Configure
  pub conn : List C

-- The creator is set by the user: a parameter. It is called once for every peer, in their order.
module _ {C : Type 0} (conn_creator : AddrInfo → C) where
  unfoldable pub connect : AddrInfo → List AddrInfo → List C → List C
  unfolding same_addr
  connect local [] conn = conn
  connect local (peer ∷ peers) conn =
      connect local peers (
        if same_addr peer local then conn_creator peer ∷ conn else conn ++ (conn_creator peer ∷ []))

  unfoldable pub create_conn : ConnMng C → ℕ × ConnMng C
  unfolding connect
  create_conn m =
      (length m.config.peer, record m { conn = connect m.config.local m.config.peer [] })

-- `GetAllConn`, the same for every instance.
module _ {C : Type 0} where
  unfoldable pub get_all_conn : ℕ → ConnMng C → List C
  get_all_conn pinst m = m.conn

-- The peers with the local address, and the others.
abbrev pub locals : AddrInfo → List AddrInfo → List AddrInfo
locals local [] = []
locals local (peer ∷ peers) =
    if same_addr peer local then peer ∷ locals local peers else locals local peers

abbrev pub remotes : AddrInfo → List AddrInfo → List AddrInfo
remotes local [] = []
remotes local (peer ∷ peers) =
    if same_addr peer local then remotes local peers else peer ∷ remotes local peers

module _ {C : Type 0} (conn_creator : AddrInfo → C) where
  connect_lem :
      (local : AddrInfo) (peers : List AddrInfo) (conn : List C)
      → connect conn_creator local peers conn
        ≡ reverse_aux
            (map conn_creator (locals local peers))
            (conn ++ map conn_creator (remotes local peers))
  unfolding connect
  connect_lem local [] conn = sym (append-nil conn)
  connect_lem local (peer ∷ peers) conn =
      elim (same_addr peer local)
        as (λ b.
          connect conn_creator local peers
            (if b then conn_creator peer ∷ conn else conn ++ (conn_creator peer ∷ []))
          ≡ reverse_aux
              (map conn_creator (if b then peer ∷ locals local peers else locals local peers))
              (conn
                ++ map conn_creator
                    (if b then remotes local peers else peer ∷ remotes local peers))) [
                      | true ↦ connect_lem local peers (conn_creator peer ∷ conn)
                      | false ↦
                          connect_lem local peers (conn ++ (conn_creator peer ∷ []))
                          ∙ ap (reverse_aux (map conn_creator (locals local peers))) (
                              append_assoc conn (conn_creator peer ∷ [])
                                (map conn_creator (remotes local peers)))
                    ]

  -- `CreateConn` returns the number of the peers, and `GetAllConn` then gives, for every instance, the
  -- connections to the peers with the local address, the last one first, before those to all other
  -- peers in the order of the settings. What the manager held before is gone.
  pub get_all_conn-create_conn :
      (m : ConnMng C) (pinst : ℕ)
      → ((create_conn conn_creator m).0 ≡ length m.config.peer)
        × (get_all_conn pinst (create_conn conn_creator m).1
            ≡ reverse (map conn_creator (locals m.config.local m.config.peer))
              ++ map conn_creator (remotes m.config.local m.config.peer))
  unfolding create_conn get_all_conn
  get_all_conn-create_conn m pinst = (
    refl,
    connect_lem m.config.local m.config.peer []
        ∙ reverse_aux-eq (map conn_creator (locals m.config.local m.config.peer))
            (map conn_creator (remotes m.config.local m.config.peer)),
  )
