-- ===== src/Service/Synth/Matched.antt =====
-- The items of the map against those that were queried from the cache.
use cdrrs.Base.{
  ◌≤◌, ◌≡◌, refl, sym, ◌∙◌, inl, inr, List, [], ◌∷◌, ◌++◌, Option, none, some, equal_iff, ok,
  if◌then◌else◌, Option-cases, length, Bytes, arith,
}
use cdrrs.Model.Item.{SipCache}
use cdrrs.Model.Cdr.{VoipCdr}
use cdrrs.Service.Todo.{Todo, lookup}
use cdrrs.Service.Todo.Keys.{IsKeyed}
use cdrrs.Service.Synth.{Env, Tried, try_all}
use cdrrs.Service.Synth.Pairs.{paired, synthesize-paired}

-- The items found in the cache have the Call-IDs they were asked for by.
abbrev pub FoundKeyed : (Bytes → Option SipCache) → Type 0
FoundKeyed q = (k : Bytes) (item : SipCache) → q k ≡ some item → item.call_id ≡ k

-- The entries whose keys were not found.
unfoldable pub kept : (Bytes → Option SipCache) → Todo → Todo
kept q [] = []
kept q ((k, v) ∷ m) = elim (q k) [ none ↦ (k, v) ∷ kept q m | some found ↦ kept q m ]

-- The records of the others, in the order of the entries.
unfoldable pub matched_cdrs : Env → (Bytes → Option SipCache) → Todo → List VoipCdr
matched_cdrs env q [] = []
matched_cdrs env q ((k, v) ∷ m) = elim (q k) [
  | none ↦ matched_cdrs env q m
  | some found ↦ (paired env v found).1 ++ matched_cdrs env q m
]

-- The keys of the others that did match.
unfoldable pub matched_keys : Env → (Bytes → Option SipCache) → Todo → List Bytes
matched_keys env q [] = []
matched_keys env q ((k, v) ∷ m) = elim (q k) [
  | none ↦ matched_keys env q m
  | some found ↦ if (paired env v found).0 then k ∷ matched_keys env q m else matched_keys env q m
]

abbrev pub tried : Env → (Bytes → Option SipCache) → Todo → Tried
tried env q m = record {
  todo = kept q m;
  cdrs = matched_cdrs env q m;
  queried_keys = matched_keys env q m;
}

-- The loop does not crash, and its result is described entry by entry.
pub try_all-tried :
    (env : Env) (q : Bytes → Option SipCache) (m : Todo)
    → FoundKeyed q
    → IsKeyed m
    → try_all env q m ≡ ok (tried env q m)
unfolding try_all kept matched_cdrs matched_keys
try_all-tried env q [] f h = refl
try_all-tried env q ((k, v) ∷ m) f (hv, h) = elim (Option-cases (q k)) [
  | inl e ↦ rw (e, try_all, kept, matched_cdrs, matched_keys) (rw (try_all-tried env q m f h) refl)
  | inr (found, e) ↦
      rw (e, try_all, kept, matched_cdrs, matched_keys)
        (rw (try_all-tried env q m f h, synthesize-paired env v found (hv ∙ sym (f k found e)), hv)
          refl)
]

-- No entry whose key was found is kept, and every other is.
pub lookup-kept :
    (q : Bytes → Option SipCache) (m : Todo) (k : Bytes)
    → lookup k (kept q m) ≡ elim (q k) [ none ↦ lookup k m | some found ↦ none ]
unfolding lookup kept
lookup-kept q [] k = ground arith
lookup-kept q ((j, v) ∷ m) k = ground (arith, lookup-kept q m k, equal_iff j k)

pub length-kept : (q : Bytes → Option SipCache) (m : Todo) → length (kept q m) ≤ length m
unfolding kept
length-kept q [] = omega arith
length-kept q ((k, v) ∷ m) = ground (arith, length-kept q m)

pub kept-IsKeyed : (q : Bytes → Option SipCache) (m : Todo) → IsKeyed m → IsKeyed (kept q m)
unfolding kept
kept-IsKeyed q [] h = tt
kept-IsKeyed q ((k, v) ∷ m) (hv, h) = elim (Option-cases (q k)) [
  | inl e ↦ rw (e, kept) (hv, kept-IsKeyed q m h)
  | inr (found, e) ↦ rw (e, kept) (kept-IsKeyed q m h)
]

-- On a keyed map and answers that are keyed, the loop over the queried items does not crash. It
-- keeps the entries whose keys were not found and no other; of the others it sends the records, in
-- the order of the entries, and lists the keys of those that matched.
pub try_all_partition :
    (env : Env) (q : Bytes → Option SipCache) (m : Todo)
    → FoundKeyed q
    → IsKeyed m
    → (t : Tried) × (try_all env q m ≡ ok t)
      × ((k : Bytes) → lookup k t.todo ≡ elim (q k) [ none ↦ lookup k m | some found ↦ none ])
      × (t.cdrs ≡ matched_cdrs env q m)
      × (t.queried_keys ≡ matched_keys env q m)
try_all_partition env q m f h =
    (tried env q m, try_all-tried env q m f h, lookup-kept q m, refl, refl)
