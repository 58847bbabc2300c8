-- ===== src/Service/Synth/Kept.antt =====
-- What becomes of one key when the waiting items are tried against those of the cache.
use cdrrs.Base.{
  ◌≡◌, refl, ◌∙◌, Bool, true, false, [], ◌∷◌, Option, none, some, equal_iff, equal_refl, All,
  Option-cases, inl, inr, Bytes, arith,
}
use cdrrs.Model.Item.{SipCache}
use cdrrs.Service.Todo.{Todo, lookup, sip_item_keys}
use cdrrs.Service.Dao.Store.{member, Distinct}
use cdrrs.Service.Synth.{Env}
use cdrrs.Service.Synth.Pairs.{paired}
use cdrrs.Service.Synth.Matched.{kept, matched_cdrs, matched_keys, lookup-kept}

abbrev pub is_some : Option SipCache → Bool
is_some none = false
is_some (some v) = true

pub member-sip_item_keys :
    (k : Bytes) (m : Todo) → member k (sip_item_keys m) ≡ is_some (lookup k m)
unfolding sip_item_keys lookup
member-sip_item_keys k [] = refl
member-sip_item_keys k ((j, v) ∷ m) = ground (arith, member-sip_item_keys k m)

pub kept-Distinct : (q : Bytes → Option SipCache) (m : Todo) → Distinct m → Distinct (kept q m)
unfolding kept
kept-Distinct q [] d = tt
kept-Distinct q ((k, v) ∷ m) (d, ds) = elim (Option-cases (q k)) [
  | inl e ↦ rw (e, kept) (lookup-kept q m k ∙ rw e d, kept-Distinct q m ds)
  | inr (u, e) ↦ rw (e, kept) (kept-Distinct q m ds)
]

pub kept-All :
    (P : Bytes × SipCache → Type 0) (q : Bytes → Option SipCache) (m : Todo)
    → All P m
    → All P (kept q m)
unfolding kept
kept-All P q [] h = tt
kept-All P q ((k, v) ∷ m) (h, hs) = elim (Option-cases (q k)) [
  | inl e ↦ rw (e, kept) (h, kept-All P q m hs)
  | inr (u, e) ↦ rw (e, kept) (kept-All P q m hs)
]

-- The key of an entry whose item was found is deleted exactly when the two match.
abbrev pub is_matched : Env → Option SipCache → Option SipCache → Bool
is_matched env none found = false
is_matched env (some v) none = false
is_matched env (some v) (some u) = (paired env v u).0

pub member-matched_keys :
    (env : Env) (q : Bytes → Option SipCache) (m : Todo) (k : Bytes)
    → Distinct m
    → member k (matched_keys env q m) ≡ is_matched env (lookup k m) (q k)
unfolding matched_keys lookup
member-matched_keys env q [] k d = refl
member-matched_keys env q ((j, v) ∷ m) k (d, ds) =
    ground (arith, equal_iff j k, member-matched_keys env q m k ds)

-- The records depend on what was found for the keys of the map only.
pub matched_cdrs-agree :
    (env : Env) (q p : Bytes → Option SipCache) (m : Todo)
    → ((k : Bytes) → is_some (lookup k m) ≡ true → q k ≡ p k)
    → matched_cdrs env q m ≡ matched_cdrs env p m
unfolding matched_cdrs lookup
matched_cdrs-agree env q p [] h = refl
matched_cdrs-agree env q p ((j, v) ∷ m) h =
    let tail = matched_cdrs-agree env q p m (λ k e. h k (ground arith)) in
    let same : q j ≡ p j = h j (ground (arith, equal_refl j)) in
    elim (Option-cases (q j)) [
      | inl e ↦ rw (e, matched_cdrs) (tail ∙ ground (arith, same, e))
      | inr (u, e) ↦ ground (arith, same, e, tail)
    ]
