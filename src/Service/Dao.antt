-- ===== src/Service/Dao.antt =====
-- What the synthesizer asks of the cache of the dao package, dao/redis_sipitem.go, over whatever
-- state the cache and its connections have. An operation whose error is only logged returns a
-- state; one whose error is returned has `none` for it.
pub mod Store
use cdrrs.Base.{◌≡◌, Option, some, List, Bytes}
use cdrrs.Model.Item.{SipCache}
use cdrrs.Service.Todo.{Todo}

pub record Dao : Type 1 where
  pub Store : Type 0
  pub cache_sip_items : Todo → Store → Store
  -- The items found, by key; an item that is missing or ill-formed is nil. `none` is an error, or no
  -- map at all.
  pub get_sip_items : List Bytes → Store → Option (Bytes → Option SipCache) × Store
  pub del_sip_items : List Bytes → Store → Store
  pub cache_expired_sip_item_keys_set : Bytes → List Bytes → Store → Store
  pub get_expired_sip_item_keys_set_members : Bytes → Store → Option (List Bytes) × Store
  pub del_expired_sip_item_keys_sets : List Bytes → Store → Store
  -- `item.CallId = ids[i]`.
  pub items_keyed :
      (ids : List Bytes) (s : Store) (found : Bytes → Option SipCache) (k : Bytes) (item : SipCache)
      → (get_sip_items ids s).0 ≡ some found
      → found k ≡ some item
      → item.call_id ≡ k
