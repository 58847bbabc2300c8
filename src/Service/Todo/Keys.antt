-- ===== src/Service/Todo/Keys.antt =====
-- The laws of the map, and the maps in which every item stands under its own Call-ID.
use cdrrs.Base.{
  ◌+◌, ◌≤◌, ◌≡◌, refl, none, some, [], ◌∷◌, if◌then◌else◌, equal, equal_iff, length, Bool-cases,
  inl, inr, Bytes, arith,
}
use cdrrs.Model.Item.{SipCache}
use cdrrs.Service.Todo.{Todo, lookup, insert, delete}

pub lookup-insert :
    (k j : Bytes) (v : SipCache) (m : Todo)
    → lookup j (insert k v m) ≡ (if equal k j then some v else lookup j m)
unfolding lookup insert
lookup-insert k j v [] = refl
lookup-insert k j v ((i, w) ∷ m) =
    ground (arith, equal_iff k j, equal_iff i k, equal_iff i j, lookup-insert k j v m)

pub lookup-delete :
    (k j : Bytes) (m : Todo) → lookup j (delete k m) ≡ (if equal k j then none else lookup j m)
unfolding lookup delete
lookup-delete k j [] = ground arith
lookup-delete k j ((i, w) ∷ m) =
    ground (arith, equal_iff k j, equal_iff i k, equal_iff i j, lookup-delete k j m)

pub delete_missing : (k : Bytes) (m : Todo) → lookup k m ≡ none → delete k m ≡ m
unfolding lookup delete
delete_missing k [] h = refl
delete_missing k ((j, w) ∷ m) h = ground (arith, delete_missing k m)

-- A key that was not there is gone after it is put and deleted.
pub delete-insert :
    (k : Bytes) (v : SipCache) (m : Todo) → lookup k m ≡ none → delete k (insert k v m) ≡ m
unfolding lookup insert delete
delete-insert k v [] h = ground (arith, equal_iff k k)
delete-insert k v ((j, w) ∷ m) h = ground (arith, delete-insert k v m)

pub length-insert : (k : Bytes) (v : SipCache) (m : Todo) → length (insert k v m) ≤ length m + 1
unfolding insert
length-insert k v [] = omega arith
length-insert k v ((j, w) ∷ m) = ground (arith, length-insert k v m)

pub length-delete : (k : Bytes) (m : Todo) → length (delete k m) ≤ length m
unfolding delete
length-delete k [] = omega arith
length-delete k ((j, w) ∷ m) = ground (arith, length-delete k m)

-- Every item stands under its own Call-ID.
abbrev pub IsKeyed : Todo → Type 0
IsKeyed [] = Unit {0}
IsKeyed ((k, v) ∷ m) = (v.call_id ≡ k) × IsKeyed m

pub lookup-IsKeyed :
    (k : Bytes) (v : SipCache) (m : Todo) → IsKeyed m → lookup k m ≡ some v → v.call_id ≡ k
unfolding lookup
lookup-IsKeyed k v [] h e = cc
lookup-IsKeyed k v ((j, w) ∷ m) (hw, h) e = ground (arith, equal_iff j k, lookup-IsKeyed k v m h)

pub insert-IsKeyed : (v : SipCache) (m : Todo) → IsKeyed m → IsKeyed (insert v.call_id v m)
unfolding insert
insert-IsKeyed v [] h = (refl, tt)
insert-IsKeyed v ((j, w) ∷ m) (hw, h) = elim (Bool-cases (equal j v.call_id)) [
  | inl e ↦ rw e (refl, h)
  | inr n ↦ rw n (hw, insert-IsKeyed v m h)
]

pub delete-IsKeyed : (k : Bytes) (m : Todo) → IsKeyed m → IsKeyed (delete k m)
unfolding delete
delete-IsKeyed k [] h = tt
delete-IsKeyed k ((j, w) ∷ m) (hw, h) = elim (Bool-cases (equal j k)) [
  | inl e ↦ rw e (delete-IsKeyed k m h)
  | inr n ↦ rw n (hw, delete-IsKeyed k m h)
]
