-- ===== src/Service/Todo.antt =====
-- `map[string]*model.SipCache`, as an association list. The order of the list is that in which a
-- `range` meets the entries, which Go leaves open.
pub mod Keys
use cdrrs.Base.{
  ℕ, Bool, true, false, Option, none, some, List, [], ◌∷◌, if◌then◌else◌, equal, Bytes,
}
use cdrrs.Model.Item.{SipCache}

abbrev pub Todo : Type 0
Todo = List (Bytes × SipCache)

-- `todo[k]`.
unfoldable pub lookup : Bytes → Todo → Option SipCache
lookup k [] = none
lookup k ((j, v) ∷ m) = if equal j k then some v else lookup k m

-- `todo[k] = v`.
unfoldable pub insert : Bytes → SipCache → Todo → Todo
insert k v [] = (k, v) ∷ []
insert k v ((j, w) ∷ m) = if equal j k then (k, v) ∷ m else (j, w) ∷ insert k v m

-- `delete(todo, k)`.
unfoldable pub delete : Bytes → Todo → Todo
delete k [] = []
delete k ((j, v) ∷ m) = let rest = delete k m in if equal j k then rest else (j, v) ∷ rest

-- `sipItemKeys`.
unfoldable pub sip_item_keys : Todo → List Bytes
sip_item_keys [] = []
sip_item_keys ((k, v) ∷ m) = k ∷ sip_item_keys m
