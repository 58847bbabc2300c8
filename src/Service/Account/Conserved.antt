-- ===== src/Service/Account/Conserved.antt =====
-- No half is lost, and none is used twice.
use cdrrs.Base.{
  ℕ, ◌+◌, ◌≡◌, refl, false, not, ◌&&◌, List, [], ◌∷◌, ◌++◌, Option, none, some, if◌then◌else◌,
  equal, equal_iff, is_empty, Bytes, arith,
}
use cdrrs.Model.Item.{SipCache}
use cdrrs.Service.Dao.Store.{member, AreDistinct}
use cdrrs.Service.Synth.{Env}
use cdrrs.Service.Synth.Kept.{is_some}
use cdrrs.Service.Synth.Pairs.{paired}
use cdrrs.Service.Account.{
  Pending, Fate, paired_off, timed_out, repeated, meeting, after_push, fate_of_push, fates_of_push,
  fate_of_expiry, fates_of_expiry, Move, ignores, arrives, meets, pushes, expires, Moves, here,
  next,
}

-- How many halves of a call a fate uses up.
abbrev pub used : Bytes → Fate → ℕ
used k (paired_off j cdrs) = if equal j k then 2 else 0
used k (timed_out j cdrs) = if equal j k then 1 else 0
used k (repeated j) = if equal j k then 1 else 0

unfoldable pub all_used : Bytes → List Fate → ℕ
all_used k [] = 0
all_used k (f ∷ fates) = used k f + all_used k fates

abbrev one : Option SipCache → ℕ
one none = 0
one (some v) = 1

-- How many are held of a call.
abbrev pub held : Bytes → Pending → ℕ
held k p = one (p.waiting k) + one (p.stored k)

-- How many have arrived of a call; items with no Call-ID are left out.
unfoldable pub arrived : Bytes → List SipCache → ℕ
arrived k [] = 0
arrived k (v ∷ items) =
    let rest = arrived k items in
    if not (is_empty v.call_id) && equal v.call_id k then 1 + rest else rest

pub arrived-append :
    (k : Bytes) (xs ys : List SipCache) → arrived k (xs ++ ys) ≡ arrived k xs + arrived k ys
unfolding arrived
arrived-append k [] ys = omega arith
arrived-append k (v ∷ xs) ys = ground (arith, arrived-append k xs ys)

all_used-append :
    (k : Bytes) (xs ys : List Fate) → all_used k (xs ++ ys) ≡ all_used k xs + all_used k ys
unfolding all_used
all_used-append k [] ys = omega arith
all_used-append k (f ∷ xs) ys = omega (arith, all_used-append k xs ys)

module _ (env : Env) where
  used-fate_of_push :
      (k j : Bytes) (v u : Option SipCache)
      → all_used k (fate_of_push env j v u) + (if equal j k then one (after_push env v u) else 0)
        ≡ (if equal j k then one v + one u else 0)
  unfolding all_used
  used-fate_of_push k j none none = ground arith
  used-fate_of_push k j none (some u) = ground arith
  used-fate_of_push k j (some v) none = ground arith
  used-fate_of_push k j (some v) (some u) = ground arith

  -- The halves of a key that the list names are tried once, and those of another one never.
  used-fates_of_push :
      (k : Bytes) (ks : List Bytes) (p : Pending)
      → AreDistinct ks
      → all_used k (fates_of_push env ks p)
          + (if member k ks then one (after_push env (p.waiting k) (p.stored k)) else 0)
        ≡ (if member k ks then held k p else 0)
  unfolding all_used fates_of_push
  used-fates_of_push k [] p d = omega arith
  used-fates_of_push k (j ∷ ks) p (n, d) = ground (
    arith,
    equal_iff j k,
    all_used-append k (fate_of_push env j (p.waiting j) (p.stored j)) (fates_of_push env ks p),
    used-fate_of_push k j (p.waiting j) (p.stored j),
    used-fates_of_push k ks p d,
  )

  used-fate_of_expiry :
      (k j : Bytes) (u : Option SipCache)
      → all_used k (fate_of_expiry env j u) ≡ (if equal j k then one u else 0)
  unfolding all_used
  used-fate_of_expiry k j none = ground arith
  used-fate_of_expiry k j (some u) = ground arith

  used-fates_of_expiry :
      (k : Bytes) (ks : List Bytes) (p : Pending)
      → AreDistinct ks
      → all_used k (fates_of_expiry env ks p) ≡ (if member k ks then one (p.stored k) else 0)
  unfolding all_used fates_of_expiry
  used-fates_of_expiry k [] p d = refl
  used-fates_of_expiry k (j ∷ ks) p (n, d) = ground (
    arith,
    equal_iff j k,
    all_used-append k (fate_of_expiry env j (p.stored j)) (fates_of_expiry env ks p),
    used-fate_of_expiry k j (p.stored j),
    used-fates_of_expiry k ks p d,
  )

  -- A half that meets another one: both are used up, or the second.
  used-meeting :
      (k j : Bytes) (v u : SipCache)
      → used k (meeting j (paired env u v))
          + (if equal j k then one (if (paired env u v).0 then none else some u) else 0)
        ≡ (if equal j k then 2 else 0)
  used-meeting k j v u = ground arith

  after_push-none : (v u : Option SipCache) → is_some v ≡ false → after_push env v u ≡ u
  after_push-none none u e = refl
  after_push-none (some v) u e = cc

  not_some : (v : Option SipCache) → is_some v ≡ false → one v ≡ 0
  not_some none e = refl
  not_some (some v) e = cc

  -- The account of one Call-ID over one move.
  abbrev pub Balanced : Bytes → Pending → List SipCache → List Fate → Pending → Type 0
  Balanced k p items fates q = all_used k fates + held k q ≡ arrived k items + held k p

  Move-Balanced :
      (k : Bytes) (p q : Pending) (items : List SipCache) (fates : List Fate)
      → Move env p items fates q
      → Balanced k p items fates q
  unfolding all_used arrived
  Move-Balanced k p q items fates (ignores v i e f w c) = rw (e, f, i) (ground (arith, w k, c k))
  Move-Balanced k p q items fates (arrives v i e f n w c) =
      rw (e, f, i) (ground (arith, equal_iff v.call_id k, n, w k, c k))
  Move-Balanced k p q items fates (meets v u i e f n w c) =
      rw (e, f, i)
        (ground (arith, equal_iff v.call_id k, n, w k, c k, used-meeting k v.call_id v u))
  Move-Balanced k p q items fates (pushes ks d m e f w c) =
      rw (e, f)
        (ground (
          arith,
          w k,
          c k,
          m k,
          used-fates_of_push k ks p d,
          after_push-none (p.waiting k) (p.stored k),
          not_some (p.waiting k),
        ))
  Move-Balanced k p q items fates (expires ks d e f w c) =
      rw (e, f) (ground (arith, w k, c k, used-fates_of_expiry k ks p d))

  -- Of each call, whatever halves arrive and whenever halves are pushed to the cache or time out: the
  -- halves that arrived and those that were held before are those that are held now and those that
  -- were used up, two by each pair, one by each time-out and one by each repetition.
  pub Moves-Balanced :
      (k : Bytes) {p q : Pending} {items : List SipCache} {fates : List Fate}
      → Moves env p items fates q
      → Balanced k p items fates q
  unfolding all_used arrived
  Moves-Balanced k here = refl
  Moves-Balanced k {p} {q}
        (next {q = r} {items = items} {more = more} {fates = fates} {further = further} m ms) =
      omega (
        arith,
        Move-Balanced k p r items fates m,
        Moves-Balanced k ms,
        arrived-append k items more,
        all_used-append k fates further,
      )
