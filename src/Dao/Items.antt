-- ===== src/Dao/Items.antt =====
-- dao/redis_sipitem.go: the items, by their Call-IDs.
use cdrrs.Base.{
  ℕ, Bool, true, false, List, [], ◌∷◌, Option, none, some, Result, ok, err, if◌then◌else◌, equal,
  length, Bytes,
}
use cdrrs.Model.Item.{SipCache, new_sip_item}
use cdrrs.Service.Todo.{Todo}
use cdrrs.Dao.Redis.{Redis, RedisError, err_nil, other, Codec, set, mset, get, mget, del}

-- `ids[i]` with an `i` that is out of range.
pub data Panic : Type 0 where
  index_out_of_range : Panic

abbrev pub Found : Type 0
Found = Bytes → Option SipCache

-- `res[k] = item`, where nil is `none`.
abbrev pub assign : Bytes → Option SipCache → Found → Found
assign k item res j = if equal k j then item else res j

-- The result of `GetSipItems`: an error, or how many times an item was assigned, and the map.
abbrev pub Fetched : Type 0
Fetched = Option (ℕ × Found)

module _ (r : Redis) (codec : Codec) where
  unfoldable pub cache_sip_item : SipCache → r.State → r.State
  cache_sip_item item s =
      let (conn, s) = r.take_conn s in
      elim (codec.marshal item) [
        | none ↦ r.close conn s
        | some bs ↦ r.close conn (r.call conn (set item.call_id bs) s).1
      ]

  -- The arguments of MSET; an item that is not encoded is left out.
  unfoldable pub mset_args : Todo → List (Bytes × Bytes)
  mset_args [] = []
  mset_args ((k, v) ∷ m) = elim (codec.marshal v) [
    | none ↦ mset_args m
    | some bs ↦ (k, bs) ∷ mset_args m
  ]

  unfoldable pub cache_sip_items : Todo → r.State → r.State
  unfolding mset_args
  cache_sip_items m s =
      let (conn, s) = r.take_conn s in
      let (send_err, s) = r.send conn (mset (mset_args m)) s in
      if send_err then r.close conn s else r.close conn (r.flush conn s).1

  -- The item of an encoded text, under the key it was asked for by.
  unfoldable pub decoded : SipCache → Bytes → Bytes → Option SipCache
  unfolding new_sip_item
  decoded pooled k bs = elim (codec.unmarshal bs (new_sip_item pooled)) [
    | none ↦ none
    | some item ↦ some (record item { call_id = k })
  ]

  -- The item, or nil, and whether there is an error.
  unfoldable pub get_sip_item : SipCache → Bytes → r.State → (Option SipCache × Bool) × r.State
  unfolding new_sip_item
  get_sip_item pooled k s =
      let (conn, s) = r.take_conn s in
      let (a, s) = r.call conn (get k) s in
      let s = r.close conn s in
      elim (r.as_bytes a) [
        | err err_nil ↦ ((none, false), s)
        | err other ↦ ((none, true), s)
        | ok bs ↦ elim (codec.unmarshal bs (new_sip_item pooled)) [
          | none ↦ ((none, true), s)
          | some item ↦ ((some (record item { call_id = k }), false), s)
        ]
      ]

  -- One round of the loop over the answers: a missing value and one that is not decoded give nil.
  unfoldable pub item_at : SipCache → Bytes → Option Bytes → Option SipCache
  unfolding decoded
  item_at pooled k none = none
  item_at pooled k (some bs) = decoded pooled k bs

  unfoldable pub fill : SipCache → List Bytes → List (Option Bytes) → Found → Result Panic Found
  unfolding item_at
  fill pooled ids [] res = ok res
  fill pooled [] (bs ∷ bss) res = err index_out_of_range
  fill pooled (k ∷ ids) (bs ∷ bss) res = fill pooled ids bss (assign k (item_at pooled k bs) res)

  unfoldable pub counted : ℕ → Result Panic Found → Result Panic Fetched
  counted n (ok res) = ok (some (n, res))
  counted n (err e) = err e

  -- The map that the answer gives.
  unfoldable pub fetched :
      SipCache → List Bytes → Result RedisError (List (Option Bytes)) → Result Panic Fetched
  unfolding fill counted
  fetched pooled ids (err err_nil) = ok (some (0, λ k. none))
  fetched pooled ids (err other) = ok none
  fetched pooled ids (ok bss) = counted (length bss) (fill pooled ids bss (λ k. none))

  unfoldable pub get_sip_items : SipCache → List Bytes → r.State → Result Panic Fetched × r.State
  unfolding fetched
  get_sip_items pooled ids s =
      let (conn, s) = r.take_conn s in
      let (a, s) = r.call conn (mget ids) s in
      (fetched pooled ids (r.as_byte_slices a), r.close conn s)

  unfoldable pub del_sip_items : List Bytes → r.State → r.State
  del_sip_items ids s = let (conn, s) = r.take_conn s in r.close conn (r.call conn (del ids) s).1
