-- ===== src/Service/Dao/Store.antt =====
-- What the cache promises to the synthesizer: a map of items by their Call-IDs, and sets of keys by
-- their names.
use cdrrs.Base.{
  ◌≡◌, Bool, false, ◌&&◌, ◌||◌, List, [], ◌∷◌, Option, none, some, if◌then◌else◌, equal, is_empty,
  All, Bytes,
}
use cdrrs.Model.Item.{SipCache}
use cdrrs.Service.Todo.{Todo, lookup}
use cdrrs.Service.Todo.Keys.{IsKeyed}
use cdrrs.Service.Dao.{Dao}

abbrev pub member : Bytes → List Bytes → Bool
member k [] = false
member k (j ∷ ks) = equal j k || member k ks

-- No key stands in the list twice.
abbrev pub AreDistinct : List Bytes → Type 0
AreDistinct [] = Unit {0}
AreDistinct (k ∷ ks) = (member k ks ≡ false) × AreDistinct ks

-- No key has two entries, as in every map of Go.
abbrev pub Distinct : Todo → Type 0
Distinct [] = Unit {0}
Distinct ((k, v) ∷ m) = (lookup k m ≡ none) × Distinct m

-- What a cache holds: `Valid` is the state of a cache that works, and `Fits` holds of an item that
-- survives its encoding.
pub record View (d : Dao) : Type 1 where
  pub Valid : d.Store → Type 0
  pub Fits : SipCache → Type 0
  pub item : d.Store → Bytes → Option SipCache
  pub in_set : d.Store → Bytes → Bytes → Bool

module _ (d : Dao) (w : View d) where
  open w use {Valid, Fits, item, in_set}

  pub record IsStore : Type 0 where
    pub cache-Valid :
        (m : Todo) (s : d.Store)
        → is_empty m ≡ false
        → All (λ (e : Bytes × SipCache). Fits e.1) m
        → Valid s
        → Valid (d.cache_sip_items m s)
    pub item-cache :
        (m : Todo) (s : d.Store) (k : Bytes)
        → is_empty m ≡ false
        → All (λ (e : Bytes × SipCache). Fits e.1) m
        → IsKeyed m
        → Distinct m
        → Valid s
        → item (d.cache_sip_items m s) k ≡ elim (lookup k m) [ none ↦ item s k | some v ↦ some v ]
    pub get_lem :
        (ids : List Bytes) (s : d.Store)
        → is_empty ids ≡ false
        → Valid s
        → (found : Bytes → Option SipCache) × ((d.get_sip_items ids s).0 ≡ some found)
          × ((k : Bytes) → found k ≡ (if member k ids then item s k else none))
    pub get-Valid :
        (ids : List Bytes) (s : d.Store)
        → is_empty ids ≡ false
        → Valid s
        → Valid (d.get_sip_items ids s).1
    pub item-get :
        (ids : List Bytes) (s : d.Store) (k : Bytes)
        → is_empty ids ≡ false
        → Valid s
        → item (d.get_sip_items ids s).1 k ≡ item s k
    pub del-Valid :
        (ids : List Bytes) (s : d.Store)
        → is_empty ids ≡ false
        → Valid s
        → Valid (d.del_sip_items ids s)
    pub item-del :
        (ids : List Bytes) (s : d.Store) (k : Bytes)
        → is_empty ids ≡ false
        → Valid s
        → item (d.del_sip_items ids s) k ≡ (if member k ids then none else item s k)
    pub add-Valid :
        (sid : Bytes) (ids : List Bytes) (s : d.Store)
        → is_empty ids ≡ false
        → Valid s
        → Valid (d.cache_expired_sip_item_keys_set sid ids s)
    pub item-add :
        (sid : Bytes) (ids : List Bytes) (s : d.Store) (k : Bytes)
        → is_empty ids ≡ false
        → Valid s
        → item (d.cache_expired_sip_item_keys_set sid ids s) k ≡ item s k
    pub in_set-add :
        (sid : Bytes) (ids : List Bytes) (s : d.Store) (j k : Bytes)
        → is_empty ids ≡ false
        → Valid s
        → in_set (d.cache_expired_sip_item_keys_set sid ids s) j k
          ≡ ((equal sid j && member k ids) || in_set s j k)
    pub members_lem :
        (sid : Bytes) (s : d.Store)
        → Valid s
        → (mem : List Bytes) × ((d.get_expired_sip_item_keys_set_members sid s).0 ≡ some mem)
          × AreDistinct mem
          × ((k : Bytes) → member k mem ≡ in_set s sid k)
    pub members-Valid :
        (sid : Bytes) (s : d.Store)
        → Valid s
        → Valid (d.get_expired_sip_item_keys_set_members sid s).1
    pub item-members :
        (sid : Bytes) (s : d.Store) (k : Bytes)
        → Valid s
        → item (d.get_expired_sip_item_keys_set_members sid s).1 k ≡ item s k
    pub del_sets-Valid :
        (sids : List Bytes) (s : d.Store)
        → is_empty sids ≡ false
        → Valid s
        → Valid (d.del_expired_sip_item_keys_sets sids s)
    pub item-del_sets :
        (sids : List Bytes) (s : d.Store) (k : Bytes)
        → is_empty sids ≡ false
        → Valid s
        → item (d.del_expired_sip_item_keys_sets sids s) k ≡ item s k
