-- ===== src/Service/Account/Maps.antt =====
-- The map of items that wait, with every key once, through its operations.
use cdrrs.Base.{refl, sym, ◌∙◌, [], ◌∷◌, equal, equal_iff, Bool-cases, inl, inr, All, Bytes, arith}
use cdrrs.Model.Item.{SipCache}
use cdrrs.Service.Todo.{Todo, lookup, insert, delete, sip_item_keys}
use cdrrs.Service.Todo.Keys.{lookup-insert, lookup-delete}
use cdrrs.Service.Dao.Store.{AreDistinct, Distinct}
use cdrrs.Service.Synth.Kept.{member-sip_item_keys}

pub insert-Distinct : (k : Bytes) (v : SipCache) (m : Todo) → Distinct m → Distinct (insert k v m)
unfolding insert lookup
insert-Distinct k v [] d = (refl, tt)
insert-Distinct k v ((j, u) ∷ m) (n, d) = elim (Bool-cases (equal j k)) [
  | inl e ↦ rw e (rw (sym ((equal_iff j k).0 e)) n, d)
  | inr e ↦ rw e (
    lookup-insert k j v m ∙ ground (arith, n, e, equal_iff j k, equal_iff k j),
    insert-Distinct k v m d,
  )
]

pub delete-Distinct : (k : Bytes) (m : Todo) → Distinct m → Distinct (delete k m)
unfolding delete
delete-Distinct k [] d = tt
delete-Distinct k ((j, u) ∷ m) (n, d) = elim (Bool-cases (equal j k)) [
  | inl e ↦ rw e (delete-Distinct k m d)
  | inr e ↦ rw e (lookup-delete k j m ∙ ground (arith, n), delete-Distinct k m d)
]

module _ (P : SipCache → Type 0) where
  abbrev pub OfAll : Todo → Type 0
  OfAll = All (λ (e : Bytes × SipCache). P e.1)

  pub insert-OfAll : (k : Bytes) (v : SipCache) (m : Todo) → P v → OfAll m → OfAll (insert k v m)
  unfolding insert
  insert-OfAll k v [] h hs = (h, tt)
  insert-OfAll k v ((j, u) ∷ m) h (g, gs) = elim (Bool-cases (equal j k)) [
    | inl e ↦ rw e (h, gs)
    | inr e ↦ rw e (g, insert-OfAll k v m h gs)
  ]

  pub delete-OfAll : (k : Bytes) (m : Todo) → OfAll m → OfAll (delete k m)
  unfolding delete
  delete-OfAll k [] hs = tt
  delete-OfAll k ((j, u) ∷ m) (g, gs) = elim (Bool-cases (equal j k)) [
    | inl e ↦ rw e (delete-OfAll k m gs)
    | inr e ↦ rw e (g, delete-OfAll k m gs)
  ]

pub AreDistinct-keys : (m : Todo) → Distinct m → AreDistinct (sip_item_keys m)
unfolding sip_item_keys
AreDistinct-keys [] d = tt
AreDistinct-keys ((k, v) ∷ m) (n, d) = (member-sip_item_keys k m ∙ rw n refl, AreDistinct-keys m d)
