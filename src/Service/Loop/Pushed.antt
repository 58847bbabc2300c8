-- ===== src/Service/Loop/Pushed.antt =====
-- What a push does to the items, over a cache that keeps its promises: nothing is lost.
use cdrrs.Base.{
  ℕ, ◌≡◌, refl, ap, ◌∙◌, true, false, List, [], ◌∷◌, ◌++◌, Option, none, some, ok, if◌then◌else◌,
  is_empty, All, Bool-cases, inl, inr, Bytes, arith,
}
use cdrrs.Model.Item.{SipCache}
use cdrrs.Service.Todo.{Todo, lookup, sip_item_keys}
use cdrrs.Service.Todo.Keys.{IsKeyed}
use cdrrs.Service.Dao.{Dao}
use cdrrs.Service.Dao.Store.{member, Distinct, View, IsStore}
use cdrrs.Service.Synth.{Env}
use cdrrs.Service.Synth.Pairs.{paired}
use cdrrs.Service.Synth.Matched.{
  FoundKeyed, kept, matched_cdrs, matched_keys, try_all-tried, kept-IsKeyed, lookup-kept,
}
use cdrrs.Service.Synth.Kept.{
  is_some, is_matched, member-sip_item_keys, kept-Distinct, kept-All, member-matched_keys,
  matched_cdrs-agree,
}
use cdrrs.Service.Loop.Safe.{todo-move_to_cache}
use cdrrs.Service.Loop.{State, del_queried, try_queried, try_synthesize, move_to_cache, push_redis}

lookup-empty : (k : Bytes) (m : Todo) → is_empty m ≡ true → lookup k m ≡ none
unfolding lookup
lookup-empty k [] e = refl
lookup-empty k ((j, v) ∷ m) e = cc

sip_item_keys-any : (m : Todo) → is_empty m ≡ false → is_empty (sip_item_keys m) ≡ false
unfolding sip_item_keys
sip_item_keys-any [] e = cc
sip_item_keys-any ((j, v) ∷ m) e = refl

module _ (dao : Dao) (w : View dao) (is : IsStore dao w) (env : Env)
    (max_cache_size push_period : ℕ) where
  open w use {Valid, Fits, item, in_set}

  del_queried-Valid :
      (ks : List Bytes) (s : dao.Store)
      → Valid s
      → Valid (del_queried dao env max_cache_size push_period ks s)
  unfolding del_queried
  del_queried-Valid [] s v = v
  del_queried-Valid (k ∷ ks) s v = is.del-Valid (k ∷ ks) s refl v

  item-del_queried :
      (ks : List Bytes) (s : dao.Store) (k : Bytes)
      → Valid s
      → item (del_queried dao env max_cache_size push_period ks s) k
        ≡ (if member k ks then none else item s k)
  unfolding del_queried
  item-del_queried [] s k v = refl
  item-del_queried (j ∷ ks) s k v = is.item-del (j ∷ ks) s k refl v

  -- The items that can be pushed: a map of its keys to items that survive their encoding.
  pub record IsPushable (m : Todo) : Type 0 where
    pub keyed : IsKeyed m
    pub distinct : Distinct m
    pub fits : All (λ (e : Bytes × SipCache). Fits e.1) m

  -- The cache behind `move_to_cache`, and what it holds.
  store-move_to_cache :
      (sid : Bytes) (s : State dao) (k : Bytes)
      → IsPushable s.todo
      → Valid s.store
      → (item (move_to_cache dao env max_cache_size push_period sid s).store k
          ≡ elim (lookup k s.todo) [ none ↦ item s.store k | some v ↦ some v ])
        × Valid (move_to_cache dao env max_cache_size push_period sid s).store
  unfolding move_to_cache
  store-move_to_cache sid s k p v = elim (Bool-cases (is_empty s.todo)) [
    | inl e ↦ rw e (rw (lookup-empty k s.todo e) refl, v)
    | inr n ↦
        let some_keys = sip_item_keys-any s.todo n in
        let cached = is.cache-Valid s.todo s.store n p.fits v in
        rw n (
          is.item-add sid (sip_item_keys s.todo) (dao.cache_sip_items s.todo s.store) k some_keys
                cached
              ∙ is.item-cache s.todo s.store k n p.fits p.keyed p.distinct v,
          is.add-Valid sid (sip_item_keys s.todo) (dao.cache_sip_items s.todo s.store) some_keys
              cached,
        )
  ]

  -- The state behind the attempt to pair the items with those that were found.
  abbrev attempted : (Bytes → Option SipCache) → dao.Store → State dao → State dao
  attempted q store s = record s {
    todo = kept q s.todo;
    cdrs = s.cdrs ++ matched_cdrs env q s.todo;
    store = del_queried dao env max_cache_size push_period (matched_keys env q s.todo) store;
  }

  try_queried-attempted :
      (s : State dao) (q : Bytes → Option SipCache)
      (x : Option (Bytes → Option SipCache) × dao.Store)
      → x.0 ≡ some q
      → FoundKeyed q
      → IsKeyed s.todo
      → try_queried dao env max_cache_size push_period s x ≡ ok (attempted q x.1 s)
  unfolding try_queried
  try_queried-attempted s q (o, store) e f h = rw e (rw (try_all-tried env q s.todo f h) refl)

  push_redis-attempted :
      (sid : Bytes) (s : State dao) (q : Bytes → Option SipCache)
      → is_empty s.todo ≡ false
      → (dao.get_sip_items (sip_item_keys s.todo) s.store).0 ≡ some q
      → FoundKeyed q
      → IsKeyed s.todo
      → push_redis dao env max_cache_size push_period sid s
        ≡ ok (
            move_to_cache dao env max_cache_size push_period sid
              (attempted q (dao.get_sip_items (sip_item_keys s.todo) s.store).1 s))
  unfolding push_redis try_synthesize
  push_redis-attempted sid s q n e f h =
      rw n (
        rw (try_queried-attempted s q (dao.get_sip_items (sip_item_keys s.todo) s.store) e f h)
          refl)

  -- What the cache is to hold at a key, from what the map and the cache held there.
  abbrev pub pushed_item : Option SipCache → Option SipCache → Option SipCache
  pushed_item none found = found
  pushed_item (some v) none = some v
  pushed_item (some v) (some u) = if (paired env v u).0 then none else some u

  pushed-cases :
      (waiting held found : Option SipCache)
      → found ≡ (if is_some waiting then held else none)
      → (elim (elim found as (λ o. Option SipCache) [ none ↦ waiting | some u ↦ none ])
          as (λ o. Option SipCache) [
            | none ↦ if is_matched env waiting found then none else held
            | some v ↦ some v
          ])
        ≡ pushed_item waiting held
  pushed-cases none held found e = rw e refl
  pushed-cases (some v) none found e = rw e refl
  pushed-cases (some v) (some u) none e = cc
  pushed-cases (some v) (some u) (some x) e = ground arith

  attempted-item :
      (q : Bytes → Option SipCache) (got : dao.Store) (s : State dao) (k : Bytes)
      → Distinct s.todo
      → Valid got
      → item got k ≡ item s.store k
      → q k ≡ (if is_some (lookup k s.todo) then item s.store k else none)
      → (elim (lookup k (attempted q got s).todo) [
        | none ↦ item (attempted q got s).store k
        | some v ↦ some v
      ])
        ≡ pushed_item (lookup k s.todo) (item s.store k)
  attempted-item q got s k d v same found =
      ap (λ y. over (lookup k (kept q s.todo)) y)
        (item-del_queried (matched_keys env q s.todo) got k v
          ∙ rw (member-matched_keys env q s.todo k d, same) refl)
      ∙ ap (λ o. over o (if is_matched env (lookup k s.todo) (q k) then none else item s.store k))
          (lookup-kept q s.todo k)
      ∙ pushed-cases (lookup k s.todo) (item s.store k) (q k) found
    where
      over : Option SipCache → Option SipCache → Option SipCache
      over o y = elim o [ none ↦ y | some v ↦ some v ]

  cdrs-move_to_cache :
      (sid : Bytes) (s : State dao)
      → (move_to_cache dao env max_cache_size push_period sid s).cdrs ≡ s.cdrs
  unfolding move_to_cache
  cdrs-move_to_cache sid s = ground arith

  -- Over a cache that keeps its promises, of which the operations succeed, in a valid state of it, a
  -- push of a map that is not empty, has one entry for a key, each item under its own Call-ID, and
  -- only items that survive their encoding, ends, and the map is empty then. The items of the map whose
  -- Call-IDs the cache does not hold are in the cache now; the others are gone, and their partners
  -- as well where the two match; the items of no other Call-ID change. The records are those of the
  -- matches.
  pub push_redis-item :
      (sid : Bytes) (s : State dao)
      → is_empty s.todo ≡ false
      → IsPushable s.todo
      → Valid s.store
      → (t : State dao) × (push_redis dao env max_cache_size push_period sid s ≡ ok t)
        × (t.todo ≡ [])
        × Valid t.store
        × ((k : Bytes) → item t.store k ≡ pushed_item (lookup k s.todo) (item s.store k))
        × (t.cdrs ≡ s.cdrs ++ matched_cdrs env (item s.store) s.todo)
  push_redis-item sid s n p v =
      let ids = sip_item_keys s.todo in
      let any = sip_item_keys-any s.todo n in
      let (q, e, h) = is.get_lem ids s.store any v in
      let keyed : FoundKeyed q = λ k u. dao.items_keyed ids s.store q k u e in
      let got = (dao.get_sip_items ids s.store).1 in
      let got-is = is.get-Valid ids s.store any v in
      let a = attempted q got s in
      let ok_keys = del_queried-Valid (matched_keys env q s.todo) got got-is in
      let item_pushed = λ (k : Bytes).
        attempted-item q got s k p.distinct got-is (is.item-get ids s.store k any v)
          (h k ∙ rw (member-sip_item_keys k s.todo) refl) in
      let kept_is : IsPushable a.todo = record {
        keyed = kept-IsKeyed q s.todo p.keyed;
        distinct = kept-Distinct q s.todo p.distinct;
        fits = kept-All _ q s.todo p.fits;
      } in
      (
        move_to_cache dao env max_cache_size push_period sid a,
        push_redis-attempted sid s q n e keyed p.keyed,
        todo-move_to_cache dao env max_cache_size push_period sid a,
        (store-move_to_cache sid a [] kept_is ok_keys).1,
        λ k. (store-move_to_cache sid a k kept_is ok_keys).0 ∙ item_pushed k,
        cdrs-move_to_cache sid a
            ∙ ap (λ x. s.cdrs ++ x)
                (matched_cdrs-agree env q (item s.store) s.todo
                  (λ k m. h k ∙ rw (member-sip_item_keys k s.todo ∙ m) refl)),
      )
