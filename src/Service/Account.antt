-- ===== src/Service/Account.antt =====
-- What the synthesizer of service/synth.go does with the halves of calls, without its loops: each
-- half waits in memory, or is held by the cache, under its Call-ID, until something becomes of it.
pub mod Conserved
pub mod Maps
pub mod Fates
pub mod Arrivals
pub mod Pushes
pub mod Runs
pub mod Settled
use cdrrs.Base.{
  ℕ, ◌+◌, ◌≡◌, Bool, true, false, List, [], ◌∷◌, ◌++◌, Option, none, some, if◌then◌else◌, equal,
  is_empty, Bytes,
}
use cdrrs.Model.Item.{SipCache}
use cdrrs.Model.Cdr.{VoipCdr, new_expired_cdr}
use cdrrs.Service.Dao.Store.{member, AreDistinct}
use cdrrs.Service.Synth.{Env, collect}
use cdrrs.Service.Synth.Kept.{is_some}
use cdrrs.Service.Synth.Pairs.{paired}

-- The halves that wait and those that the cache holds, by their Call-IDs. Neither the order of the
-- map nor the way in which the cache keeps them is seen here.
pub record Pending : Type 0 where
  pub waiting : Bytes → Option SipCache
  pub stored : Bytes → Option SipCache

-- What becomes of a half, or of two: with the Call-ID and the record that is sent, if one is.
pub data Fate : Type 0 where
  paired_off : Bytes → List VoipCdr → Fate
  timed_out : Bytes → List VoipCdr → Fate
  repeated : Bytes → Fate

abbrev pub cdrs_of : Fate → List VoipCdr
cdrs_of (paired_off k cdrs) = cdrs
cdrs_of (timed_out k cdrs) = cdrs
cdrs_of (repeated k) = []

unfoldable pub all_cdrs : List Fate → List VoipCdr
all_cdrs [] = []
all_cdrs (f ∷ fates) = cdrs_of f ++ all_cdrs fates

-- A half that meets another one of its call: they match, or the second is of the same kind.
abbrev pub meeting : Bytes → Bool × List VoipCdr → Fate
meeting k (true, cdrs) = paired_off k cdrs
meeting k (false, cdrs) = repeated k

module _ (env : Env) where
  -- What is left of a Call-ID in the cache when its waiting half is tried against it.
  abbrev pub after_push : Option SipCache → Option SipCache → Option SipCache
  after_push none held = held
  after_push (some v) none = some v
  after_push (some v) (some u) = if (paired env v u).0 then none else some u

  abbrev pub fate_of_push : Bytes → Option SipCache → Option SipCache → List Fate
  fate_of_push k none held = []
  fate_of_push k (some v) none = []
  fate_of_push k (some v) (some u) = meeting k (paired env v u) ∷ []

  unfoldable pub fates_of_push : List Bytes → Pending → List Fate
  fates_of_push [] p = []
  fates_of_push (k ∷ ks) p = fate_of_push k (p.waiting k) (p.stored k) ++ fates_of_push ks p

  abbrev pub fate_of_expiry : Bytes → Option SipCache → List Fate
  fate_of_expiry k none = []
  fate_of_expiry k (some v) =
      timed_out k (collect (new_expired_cdr env.parse_time env.positions env.pooled k v)) ∷ []

  unfoldable pub fates_of_expiry : List Bytes → Pending → List Fate
  fates_of_expiry [] p = []
  fates_of_expiry (k ∷ ks) p = fate_of_expiry k (p.stored k) ++ fates_of_expiry ks p

  -- One move: the items that arrive by it, what becomes of the halves, and what is held then.
  pub data Move (p : Pending) (items : List SipCache) (fates : List Fate) (q : Pending)
      : Type 0 where
    ignores :
        (v : SipCache)
        → is_empty v.call_id ≡ true
        → items ≡ v ∷ []
        → fates ≡ []
        → ((k : Bytes) → q.waiting k ≡ p.waiting k)
        → ((k : Bytes) → q.stored k ≡ p.stored k)
        → Move p items fates q
    arrives :
        (v : SipCache)
        → is_empty v.call_id ≡ false
        → items ≡ v ∷ []
        → fates ≡ []
        → p.waiting v.call_id ≡ none
        → ((k : Bytes) → q.waiting k ≡ (if equal v.call_id k then some v else p.waiting k))
        → ((k : Bytes) → q.stored k ≡ p.stored k)
        → Move p items fates q
    meets :
        (v u : SipCache)
        → is_empty v.call_id ≡ false
        → items ≡ v ∷ []
        → fates ≡ meeting v.call_id (paired env u v) ∷ []
        → p.waiting v.call_id ≡ some u
        → ((k : Bytes)
            → q.waiting k ≡ (
                if equal v.call_id k
                then (if (paired env u v).0 then none else some u)
                else p.waiting k))
        → ((k : Bytes) → q.stored k ≡ p.stored k)
        → Move p items fates q
    pushes :
        (ks : List Bytes)
        → AreDistinct ks
        → ((k : Bytes) → member k ks ≡ is_some (p.waiting k))
        → items ≡ []
        → fates ≡ fates_of_push ks p
        → ((k : Bytes) → q.waiting k ≡ none)
        → ((k : Bytes) → q.stored k ≡ after_push (p.waiting k) (p.stored k))
        → Move p items fates q
    expires :
        (ks : List Bytes)
        → AreDistinct ks
        → items ≡ []
        → fates ≡ fates_of_expiry ks p
        → ((k : Bytes) → q.waiting k ≡ p.waiting k)
        → ((k : Bytes) → q.stored k ≡ (if member k ks then none else p.stored k))
        → Move p items fates q

  -- Any number of moves, with all the items and fates in their order.
  pub data Moves : Pending → List SipCache → List Fate → Pending → Type 0 where
    here : {p : Pending} → Moves p [] [] p
    next :
        {p q r : Pending} {items more : List SipCache} {fates further : List Fate}
        → Move p items fates q
        → Moves q more further r
        → Moves p (items ++ more) (fates ++ further) r
