-- ===== src/Service/Loop/Expired.antt =====
-- What becomes of a set of keys when its timer fires, over a cache that keeps its promises.
use cdrrs.Base.{
  ℕ, ◌≡◌, refl, sym, ap, ◌∙◌, true, false, List, [], ◌∷◌, ◌++◌, append-nil, Option, none, some,
  if◌then◌else◌, is_empty, equal_refl, Bytes, arith,
}
use cdrrs.Model.Item.{SipCache}
use cdrrs.Service.Dao.{Dao}
use cdrrs.Service.Dao.Store.{member, AreDistinct, View, IsStore}
use cdrrs.Model.Cdr.{VoipCdr, new_expired_cdr}
use cdrrs.Service.Synth.{Env, collect}
use cdrrs.Service.Loop.{State, expire_items, expire_keys, expire_found, handle_expired_key_set}

module _ (dao : Dao) (w : View dao) (is : IsStore dao w) (env : Env)
    (max_cache_size push_period : ℕ) where
  open w use {Valid, item, in_set}

  -- The records depend on what was found for the keys only.
  pub expire_items-agree :
      (ks : List Bytes) (q p : Bytes → Option SipCache)
      → ((k : Bytes) → member k ks ≡ true → q k ≡ p k)
      → expire_items dao env max_cache_size push_period ks q
        ≡ expire_items dao env max_cache_size push_period ks p
  unfolding expire_items
  expire_items-agree [] q p h = refl
  expire_items-agree (k ∷ ks) q p h =
      ap (λ o. one k o (expire_items dao env max_cache_size push_period ks q))
        (h k (rw (equal_refl k) refl))
      ∙ ap (one k (p k)) (expire_items-agree ks q p (λ j m. h j (ground (arith, m))))
    where
      one : Bytes → Option SipCache → List VoipCdr → List VoipCdr
      one j o rest = elim o [
        | none ↦ rest
        | some v ↦ collect (new_expired_cdr env.parse_time env.positions env.pooled j v) ++ rest
      ]

  -- The members of the set, the state behind, and the records of those that the cache had.
  pub record IsExpired (sid : Bytes) (s t : State dao) : Type 0 where
    pub mem : List Bytes
    pub distinct : AreDistinct mem
    pub member_mem : (k : Bytes) → member k mem ≡ in_set s.store sid k
    pub cdrs_are :
        t.cdrs ≡ s.cdrs ++ expire_items dao env max_cache_size push_period mem (item s.store)
    pub items_are :
        (k : Bytes) → item t.store k ≡ (if in_set s.store sid k then none else item s.store k)
    pub valid : Valid t.store
    pub todo_is : t.todo ≡ s.todo

  expire_found-IsExpired :
      (sid : Bytes) (s : State dao) (mem : List Bytes) (store : dao.Store)
      (x : Option (Bytes → Option SipCache) × dao.Store) (found : Bytes → Option SipCache)
      → is_empty mem ≡ false
      → AreDistinct mem
      → ((k : Bytes) → member k mem ≡ in_set s.store sid k)
      → x.0 ≡ some found
      → ((k : Bytes) → member k mem ≡ true → found k ≡ item s.store k)
      → Valid x.1
      → ((k : Bytes) → item x.1 k ≡ item s.store k)
      → IsExpired sid s
          (expire_found dao env max_cache_size push_period sid mem (record s { store = store }) x)
  unfolding expire_found
  expire_found-IsExpired sid s mem store (o, behind) found n d h f at v same =
      let w' = is.del-Valid mem behind n v in
      rw f (record {
        mem = mem;
        distinct = d;
        member_mem = h;
        cdrs_are = ap (λ cdrs. s.cdrs ++ cdrs) (expire_items-agree mem found (item s.store) at);
        items_are = λ k.
            is.item-del_sets (sid ∷ []) (dao.del_sip_items mem behind) k refl w'
            ∙ is.item-del mem behind k n v
            ∙ rw (h k, same k) refl;
        valid = is.del_sets-Valid (sid ∷ []) (dao.del_sip_items mem behind) refl w';
        todo_is = refl;
      })

  -- What stands behind the fetching of the members, and then of their items.
  expire_keys-IsExpired :
      (sid : Bytes) (s : State dao) (mem : List Bytes) (x : Option (List Bytes) × dao.Store)
      → x.0 ≡ some mem
      → AreDistinct mem
      → ((k : Bytes) → member k mem ≡ in_set s.store sid k)
      → Valid x.1
      → ((k : Bytes) → item x.1 k ≡ item s.store k)
      → IsExpired sid s (expire_keys dao env max_cache_size push_period sid s x)
  unfolding expire_keys expire_items
  expire_keys-IsExpired sid s [] (o, store) e d h v same = rw e (record {
    mem = [];
    distinct = tt;
    member_mem = h;
    cdrs_are = sym (append-nil s.cdrs);
    items_are = λ k. same k ∙ rw (sym (h k)) refl;
    valid = v;
    todo_is = refl;
  })
  expire_keys-IsExpired sid s (j ∷ ks) (o, store) e d h v same =
      let (found, f, at) = is.get_lem (j ∷ ks) store refl v in
      rw e (
        expire_found-IsExpired sid s (j ∷ ks) store (dao.get_sip_items (j ∷ ks) store) found refl d
          h f (λ k m. at k ∙ rw m (same k)) (is.get-Valid (j ∷ ks) store refl v)
          (λ k. is.item-get (j ∷ ks) store k refl v ∙ same k))

  -- When the timer of a set fires, on a valid cache: the records that are sent then are those of the
  -- items that the cache holds for the members of the set, as `NewExpiredCDR` makes them; these
  -- items are gone from the cache afterwards, all others are as they were, the map of the items that
  -- wait is untouched, and the cache stays valid.
  pub handle_expired_key_set-IsExpired :
      (sid : Bytes) (s : State dao)
      → Valid s.store
      → IsExpired sid s (handle_expired_key_set dao env max_cache_size push_period sid s)
  unfolding handle_expired_key_set
  handle_expired_key_set-IsExpired sid s v =
      let (mem, e, d, h) = is.members_lem sid s.store v in
      expire_keys-IsExpired sid s mem (dao.get_expired_sip_item_keys_set_members sid s.store) e d h
        (is.members-Valid sid s.store v) (λ k. is.item-members sid s.store k v)
