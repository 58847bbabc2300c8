-- ===== src/Dao/Filled.antt =====
-- dao/redis_sipitem.go as the cache of the synthesizer: every item that is found has the Call-ID
-- that it was asked for by, whatever the server answers.
use cdrrs.Base.{
  ℕ, zero, suc, ◌≡◌, Bool, true, false, List, [], ◌∷◌, Option, none, some, Result, ok, err,
  equal_iff, length, Bytes, arith,
}
use mathlib.Core.Path.{subst}
use cdrrs.Model.Item.{SipCache}
use cdrrs.Service.Dao.{Dao}
use cdrrs.Service.Synth.Matched.{FoundKeyed}
use cdrrs.Dao.Redis.{Redis, RedisError, err_nil, other, Codec}
use cdrrs.Dao.Items.{
  Panic, Found, Fetched, assign, cache_sip_items, get_sip_items, del_sip_items, item_at, fill,
  decoded, counted, fetched,
}
use cdrrs.Dao.Sets.{
  cache_expired_sip_item_keys_set, get_expired_sip_item_keys_set_members,
  del_expired_sip_item_keys_sets,
}

-- What the synthesizer looks at: no map and a map with no entry are alike to it, as an error is. A
-- panic would end the process; it needs an answer longer than what was asked for.
abbrev pub answered : Result Panic Fetched → Option Found
answered (err e) = none
answered (ok none) = none
answered (ok (some (zero, res))) = none
answered (ok (some (suc n, res))) = some res

abbrev pub members_or_error : List Bytes × Bool → Option (List Bytes)
members_or_error (mem, true) = none
members_or_error (mem, false) = some mem

-- The maps that an answer or a result may hold are keyed.
KeyedAnswer : Option Found → Type 0
KeyedAnswer none = Unit
KeyedAnswer (some f) = FoundKeyed f

KeyedResult : Result Panic Found → Type 0
KeyedResult (ok f) = FoundKeyed f
KeyedResult (err e) = Unit

module _ (r : Redis) (codec : Codec) (pooled : SipCache) where
  item_at-keyed :
      (k : Bytes) (bs : Option Bytes) (item : SipCache)
      → item_at r codec pooled k bs ≡ some item
      → item.call_id ≡ k
  unfolding item_at decoded
  item_at-keyed k none item e = cc
  item_at-keyed k (some bs) item e = ground arith

  assign-keyed :
      (k : Bytes) (bs : Option Bytes) (res : Found)
      → FoundKeyed res
      → FoundKeyed (assign k (item_at r codec pooled k bs) res)
  assign-keyed k bs res h j item e =
      ground (arith, equal_iff k j, h j item, item_at-keyed k bs item)

  fill-KeyedResult :
      (ids : List Bytes) (bss : List (Option Bytes)) (res : Found)
      → FoundKeyed res
      → KeyedResult (fill r codec pooled ids bss res)
  unfolding fill KeyedResult
  fill-KeyedResult ids [] res h = h
  fill-KeyedResult [] (bs ∷ bss) res h = tt
  fill-KeyedResult (k ∷ ids) (bs ∷ bss) res h = fill-KeyedResult ids bss _ (assign-keyed k bs res h)

  answered-KeyedAnswer :
      (n : ℕ) (f : Result Panic Found)
      → KeyedResult f
      → KeyedAnswer (answered (counted r codec n f))
  unfolding counted KeyedResult KeyedAnswer
  answered-KeyedAnswer n (err e) h = tt
  answered-KeyedAnswer zero (ok f) h = tt
  answered-KeyedAnswer (suc n) (ok f) h = h

  fetched-KeyedAnswer :
      (ids : List Bytes) (a : Result RedisError (List (Option Bytes)))
      → KeyedAnswer (answered (fetched r codec pooled ids a))
  unfolding fetched KeyedAnswer
  fetched-KeyedAnswer ids (err err_nil) = tt
  fetched-KeyedAnswer ids (err other) = tt
  fetched-KeyedAnswer ids (ok bss) =
      answered-KeyedAnswer (length bss) _ (fill-KeyedResult ids bss (λ k. none) (λ k item e. cc))

  pub items_keyed :
      (ids : List Bytes) (s : r.State) (found : Found) (k : Bytes) (item : SipCache)
      → answered (get_sip_items r codec pooled ids s).0 ≡ some found
      → found k ≡ some item
      → item.call_id ≡ k
  unfolding get_sip_items KeyedAnswer
  items_keyed ids s found k item e h = subst KeyedAnswer e (fetched-KeyedAnswer ids _) k item h

  abbrev pub redis_dao : Dao
  redis_dao = record {
    Store = r.State;
    cache_sip_items = cache_sip_items r codec;
    get_sip_items = λ ids s. let (got, t) = get_sip_items r codec pooled ids s in (answered got, t);
    del_sip_items = del_sip_items r codec;
    cache_expired_sip_item_keys_set = cache_expired_sip_item_keys_set r;
    get_expired_sip_item_keys_set_members = λ sid s.
        let (mem, t) = get_expired_sip_item_keys_set_members r sid s in (members_or_error mem, t);
    del_expired_sip_item_keys_sets = del_expired_sip_item_keys_sets r;
    items_keyed = items_keyed;
  }
