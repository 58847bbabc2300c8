-- ===== src/Dao/Server/Encoded.antt =====
-- What dao/redis_sipitem.go encodes and sends, and what it makes of the answers.
use mathlib.Core.Path.{subst}
use cdrrs.Base.{
  ◌≡◌, refl, sym, ap, ◌∙◌, false, List, [], ◌∷◌, Option, none, some, ok, if◌then◌else◌, equal,
  equal_iff, is_empty, length, map, All, Bytes, arith, Bool-cases, inl, inr,
}
use cdrrs.Model.Item.{SipCache, empty_sip_item, new_sip_item}
use cdrrs.Service.Todo.{Todo, lookup}
use cdrrs.Service.Dao.Store.{member, Distinct}
use cdrrs.Dao.Redis.{Redis, Codec}
use cdrrs.Dao.Items.{Found, assign, item_at, fill, decoded, counted, fetched, mset_args}
use cdrrs.Dao.Filled.{answered}
use cdrrs.Dao.Server.{latest, IsCodec}

module _ (r : Redis) (codec : Codec) (ic : IsCodec codec) (pooled : SipCache) where
  -- Every item of the map fits.
  abbrev pub AllFit : Todo → Type 0
  AllFit = All (λ (e : Bytes × SipCache). ic.Fits e.1)

  mset_args-cons :
      (k bs : Bytes) (v : SipCache) (m : Todo)
      → codec.marshal v ≡ some bs
      → mset_args r codec ((k, v) ∷ m) ≡ (k, bs) ∷ mset_args r codec m
  unfolding mset_args
  mset_args-cons k bs v m e = ground arith

  pub mset_args-any :
      (m : Todo) → is_empty m ≡ false → AllFit m → is_empty (mset_args r codec m) ≡ false
  mset_args-any [] e h = cc
  mset_args-any ((k, v) ∷ m) e (h, hs) =
      let (bs, w, u) = ic.unmarshal-marshal v h in rw (mset_args-cons k bs v m w) refl

  pub latest-mset_args :
      (m : Todo) (k : Bytes) (old : Option Bytes)
      → AllFit m
      → Distinct m
      → latest (mset_args r codec m) k old
        ≡ elim (lookup k m) [ none ↦ old | some v ↦ codec.marshal v ]
  unfolding mset_args lookup
  latest-mset_args [] k old h d = refl
  latest-mset_args ((j, v) ∷ m) k old (h, hs) (d, ds) =
      let (bs, e, u) = ic.unmarshal-marshal v h in
      ap (λ (kvs : List (Bytes × Bytes)). latest kvs k old) (mset_args-cons j bs v m e)
      ∙ (latest-mset_args m k (if equal j k then some bs else old) hs ds
          ∙ ground (arith, equal_iff j k, d, e))

  item_at-some :
      (k bs : Bytes) (v : SipCache)
      → codec.unmarshal bs empty_sip_item ≡ some v
      → item_at r codec pooled k (some bs) ≡ some (record v { call_id = k })
  unfolding item_at decoded new_sip_item
  item_at-some k bs v e = ground arith

  pub item_at-marshal :
      (v : SipCache) (k : Bytes)
      → ic.Fits v
      → v.call_id ≡ k
      → item_at r codec pooled k (codec.marshal v) ≡ some v
  item_at-marshal v k h e =
      let (bs, m, u) = ic.unmarshal-marshal v h in
      rw m (item_at-some k bs _ u ∙ ap (λ (x : Bytes). some (record v { call_id = x })) (sym e))

  pub fill-map :
      (f : Bytes → Option Bytes) (ids : List Bytes) (res : Found)
      → (g : Found) × (fill r codec pooled ids (map f ids) res ≡ ok g)
        × ((k : Bytes) → g k ≡ (if member k ids then item_at r codec pooled k (f k) else res k))
  unfolding fill
  fill-map f [] res = (res, refl, λ k. refl)
  fill-map f (j ∷ ids) res =
      let (g, e, h) = fill-map f ids (assign j (item_at r codec pooled j (f j)) res) in
      (g, e, λ k. h k ∙ ground (arith, equal_iff j k))

  pub lookup-AllFit :
      (m : Todo) (k : Bytes) (v : SipCache) → AllFit m → lookup k m ≡ some v → ic.Fits v
  unfolding lookup
  lookup-AllFit [] k v h e = cc
  lookup-AllFit ((j, w) ∷ m) k v (h, hs) e = elim (Bool-cases (equal j k)) [
    | inl y ↦ subst (λ o. FitsIf o) (rw y at e) h
    | inr n ↦ lookup-AllFit m k v hs (rw n at e)
  ]
    where
      FitsIf : Option SipCache → Type 0
      FitsIf none = Unit
      FitsIf (some x) = ic.Fits x

  pub fetched-map :
      (f : Bytes → Option Bytes) (j : Bytes) (ids : List Bytes) (g : Found)
      → fill r codec pooled (j ∷ ids) (map f (j ∷ ids)) (λ k. none) ≡ ok g
      → answered (fetched r codec pooled (j ∷ ids) (ok (map f (j ∷ ids)))) ≡ some g
  unfolding fetched counted
  fetched-map f j ids g e = ap (λ x. answered (counted r codec (length (map f (j ∷ ids))) x)) e
