-- ===== src/Service/Account/Arrivals.antt =====
-- A half that arrives: `append` of service/synth.go as a move of the account.
use cdrrs.Base.{
  ℕ, ◌+◌, ◌<◌, ◌≤◌, ◌≡◌, refl, sym, ap, ◌∙◌, Bool, true, false, List, [], ◌∷◌, ◌++◌, append_assoc,
  none, some, ok, if◌then◌else◌, is_empty, equal, equal_iff, length, Option-cases, inl, inr, Bytes,
  arith,
}
use mathlib.Core.Path.{subst}
use cdrrs.Model.Item.{SipCache}
use cdrrs.Service.Todo.{Todo, lookup, insert, delete}
use cdrrs.Service.Todo.Keys.{
  lookup-insert, lookup-delete, lookup-IsKeyed, insert-IsKeyed, delete-IsKeyed, length-insert,
  length-delete,
}
use cdrrs.Service.Dao.{Dao}
use cdrrs.Service.Dao.Store.{View, IsStore}
use cdrrs.Service.Synth.{Env, append, Appended}
use cdrrs.Service.Synth.Pairs.{paired, append_missing, append_found}
use cdrrs.Service.Loop.{State}
use cdrrs.Service.Loop.Pushed.{IsPushable}
use cdrrs.Service.Account.{
  Pending, Fate, all_cdrs, meeting, Move, arrives, meets, Moves, here, next,
}
use cdrrs.Service.Account.Maps.{insert-Distinct, delete-Distinct, insert-OfAll, delete-OfAll}
use cdrrs.Service.Account.Fates.{cdrs-meeting}

pub Moves-append :
    (env : Env) {p q r : Pending} {xs ys : List SipCache} {fs gs : List Fate}
    → Moves env p xs fs q
    → Moves env q ys gs r
    → Moves env p (xs ++ ys) (fs ++ gs) r
Moves-append env here n = n
Moves-append env {p} {r = r} {ys = ys} {gs = gs}
      (next {items = xs} {more = more} {fates = fs} {further = further} m ms) n =
    subst (λ l. Moves env p l ((fs ++ further) ++ gs) r) (sym (append_assoc xs more ys))
      (subst (λ l. Moves env p (xs ++ (more ++ ys)) l r) (sym (append_assoc fs further gs))
        (next m (Moves-append env ms n)))

module _ (dao : Dao) (w : View dao) (is : IsStore dao w) (env : Env)
    (max_cache_size push_period : ℕ) where
  open w use {Valid, Fits, item, in_set}

  -- What is held: the items of the map, and those of the cache.
  abbrev pub held_by : Todo → dao.Store → Pending
  held_by todo store = record { waiting = λ k. lookup k todo; stored = item store }

  -- The map has one item for a key, each of which can be cached, and there is room for another one.
  pub record Good (s : State dao) : Type 0 where
    pub pushable : IsPushable dao w is env max_cache_size push_period s.todo
    pub valid : Valid s.store
    pub room : length s.todo < max_cache_size

  -- Between two states: the fates of the halves, and the records sent for them.
  pub record Accounts (s : State dao) (items : List SipCache) (t : State dao) : Type 0 where
    pub fates : List Fate
    pub cdrs_are : t.cdrs ≡ s.cdrs ++ all_cdrs fates
    pub moves : Moves env (held_by s.todo s.store) items fates (held_by t.todo t.store)

  -- The map behind two halves that met.
  abbrev behind : Bool → Bytes → Todo → Todo
  behind b k todo = if b then delete k todo else todo

  behind-IsPushable :
      (b : Bool) (k : Bytes) (todo : Todo)
      → IsPushable dao w is env max_cache_size push_period todo
      → IsPushable dao w is env max_cache_size push_period (behind b k todo)
  behind-IsPushable true k todo p = record {
    keyed = delete-IsKeyed k todo p.keyed;
    distinct = delete-Distinct k todo p.distinct;
    fits = delete-OfAll Fits k todo p.fits;
  }
  behind-IsPushable false k todo p = p

  length-behind : (b : Bool) (k : Bytes) (todo : Todo) → length (behind b k todo) ≤ length todo + 1
  length-behind true k todo = omega (arith, length-delete k todo)
  length-behind false k todo = omega arith

  lookup-behind :
      (b : Bool) (j k : Bytes) (u : SipCache) (todo : Todo)
      → lookup j todo ≡ some u
      → lookup k (behind b j todo)
        ≡ (if equal j k then (if b then none else some u) else lookup k todo)
  lookup-behind true j k u todo e = lookup-delete j k todo
  lookup-behind false j k u todo e = ground (arith, equal_iff j k, e)

  -- A half that arrives.
  pub append-Move :
      (todo : Todo) (store : dao.Store) (v : SipCache)
      → IsPushable dao w is env max_cache_size push_period todo
      → Fits v
      → is_empty v.call_id ≡ false
      → (r : Appended) × (append env todo v ≡ ok r)
        × IsPushable dao w is env max_cache_size push_period r.0
        × (length r.0 ≤ length todo + 1)
        × (fates : List Fate) × (r.1 ≡ all_cdrs fates)
        × Move env (held_by todo store) (v ∷ []) fates (held_by r.0 store)
  unfolding all_cdrs
  append-Move todo store v p f n = elim (Option-cases (lookup v.call_id todo)) [
    | inl e ↦ (
      (insert v.call_id v todo, []),
      append_missing env todo v e,
      record {
        keyed = insert-IsKeyed v todo p.keyed;
        distinct = insert-Distinct v.call_id v todo p.distinct;
        fits = insert-OfAll Fits v.call_id v todo f p.fits;
      },
      length-insert v.call_id v todo,
      [],
      refl,
      arrives v n refl refl e (λ k. lookup-insert v.call_id k v todo) (λ k. refl),
    )
    | inr (u, e) ↦
        let same = lookup-IsKeyed v.call_id u todo p.keyed e in
        (
          (if (paired env u v).0 then delete u.call_id todo else todo, (paired env u v).1),
          append_found env todo v u e same,
          behind-IsPushable (paired env u v).0 u.call_id todo p,
          length-behind (paired env u v).0 u.call_id todo,
          meeting v.call_id (paired env u v) ∷ [],
          sym (cdrs-meeting env v.call_id u v),
          meets v u n refl refl e
              (λ k.
                ap (λ j. lookup k (behind (paired env u v).0 j todo)) same
                ∙ lookup-behind (paired env u v).0 v.call_id k u todo e)
              (λ k. refl),
        )
  ]
