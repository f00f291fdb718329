-- ===== src/LruMap.antt =====
-- util/lrumap.hpp at keys of type uint64_t, the keys of both its uses (EntryMng, RemoteConn).
-- `order_` is a list of nodes, each with the address that an iterator of `kv_` holds.
pub mod Nodes
pub mod Laws
use quarrel.Prelude.{
  ℕ, suc, ◌+◌, ◌∷◌, List, [], Option, none, some, Bool, true, false, length, ltb, ◌==◌,
  if◌then◌else◌,
}
use quarrel.Prelude.Assoc.{lookup, insert, erase}
use Nodes.{Node, find_node, erase_node, update_node, back, pop_back}

pub record LruMap (V : Type 0) : Type 0 where
  pub max_size : ℕ
  pub order : List (Node V)
  pub kv : List (ℕ × ℕ)
  pub next_address : ℕ  -- where the list allocates its next node

module _ {V : Type 0} where
  unfoldable pub init : ℕ → LruMap V
  init max_size = record { max_size = max_size; order = []; kv = []; next_address = 0 }

  -- The tail of `Put`: `if (kv_.size() > max_size_)`. `back` finds a node, since one was put in.
  unfoldable pub evict : LruMap V → LruMap V
  evict m =
      if ltb m.max_size (length m.kv)
      then elim (back m.order) [
        | none ↦ m
        | some last ↦ record m { kv = erase last.key m.kv; order = pop_back m.order }
      ]
      else m

  -- `Put` up to that test: the new node at the front, the old one of the key gone, the index set.
  unfoldable pub link : ℕ → V → LruMap V → LruMap V
  link key value m =
      let order : List (Node V) =
        record { key = key; value = value; address = m.next_address } ∷ m.order in
      let order' : List (Node V) = elim (lookup key m.kv) [
        | none ↦ order
        | some it ↦ erase_node it order
      ] in
      record m {
        order = order';
        kv = insert key m.next_address m.kv;
        next_address = suc m.next_address;
      }

  unfoldable pub put : ℕ → V → LruMap V → LruMap V
  put key value m = evict (link key value m)

  -- The pointer, as the value that it points to. `none` under `some it` is a dangling iterator.
  unfoldable pub get_ptr : ℕ → LruMap V → Option V × LruMap V
  get_ptr key m = elim (lookup key m.kv) [
    | none ↦ (none, m)
    | some it ↦ elim (find_node it m.order) [
      | none ↦ (none, m)
      | some n ↦ (some n.value, record m { order = n ∷ erase_node it m.order })
    ]
  ]

  -- A write through the pointer that `GetPtr(key)` gave.
  unfoldable pub write_ptr : ℕ → V → LruMap V → LruMap V
  write_ptr key value m = elim (lookup key m.kv) [
    | none ↦ m
    | some it ↦ record m { order = update_node it value m.order }
  ]

  unfoldable pub del : ℕ → LruMap V → Bool × LruMap V
  del key m = elim (lookup key m.kv) [
    | none ↦ (false, m)
    | some it ↦ (true, record m { order = erase_node it m.order; kv = erase key m.kv })
  ]

  unfoldable pub clear : LruMap V → LruMap V
  clear m = record m { order = []; kv = [] }

  unfoldable pub exists : ℕ → LruMap V → Bool
  exists key m = elim (lookup key m.kv) [ none ↦ false | some it ↦ true ]

  unfoldable pub size : LruMap V → ℕ
  size m = length m.kv
