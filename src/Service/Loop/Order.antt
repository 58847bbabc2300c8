-- ===== src/Service/Loop/Order.antt =====
-- The order in which Go goes through a map is open: what of it shows behind a push.
use mathlib.Core.List.Permᴰ
use mathlib.Core.List.{Permᴰ}
use mathlib.Core.Path.{subst}
use cdrrs.Base.{
  All-Permᴰ, is_empty-Permᴰ, ℕ, ◌≡◌, refl, sym, ap, ◌∙◌, false, List, [], ◌∷◌, ◌++◌, append_assoc,
  Option, none, some, ok, is_empty, All, if◌then◌else◌, equal, equal_iff, Option-cases, inl, inr,
  Bytes, arith,
}
use cdrrs.Model.Item.{SipCache}
use cdrrs.Model.Cdr.{VoipCdr}
use cdrrs.Service.Todo.{Todo, lookup}
use cdrrs.Service.Todo.Keys.{IsKeyed}
use cdrrs.Service.Dao.{Dao}
use cdrrs.Service.Dao.Store.{Distinct, View, IsStore}
use cdrrs.Service.Synth.{Env}
use cdrrs.Service.Synth.Pairs.{paired}
use cdrrs.Service.Synth.Matched.{matched_cdrs}
use cdrrs.Service.Loop.{State, push_redis}
use cdrrs.Service.Loop.Pushed.{IsPushable, pushed_item, push_redis-item}

abbrev Entry : Type 0
Entry = Bytes × SipCache

lookup-cons :
    (k : Bytes) (a : Entry) (m : Todo)
    → lookup k (a ∷ m) ≡ (if equal a.0 k then some a.1 else lookup k m)
unfolding lookup
lookup-cons k (j, v) m = refl

-- Both orders have one entry for a key, and the same one.
lookup-Permᴰ :
    {xs ys : Todo}
    → Permᴰ xs ys
    → Distinct xs
    → ((k : Bytes) → lookup k xs ≡ lookup k ys) × Distinct ys
unfolding lookup
lookup-Permᴰ Permᴰ.nil d = (λ k. refl, tt)
lookup-Permᴰ (Permᴰ.cons {a = (j, v)} {b = b} {l₁ = l} {l₂ = l'} e p) (n, d) =
    let (same, d') = lookup-Permᴰ p d in
    subst
      (λ (x : Entry). ((k : Bytes) → lookup k ((j, v) ∷ l) ≡ lookup k (x ∷ l')) × Distinct (x ∷ l'))
      e (λ k. ap (λ o. if equal j k then some v else o) (same k), (sym (same j) ∙ n, d'))
lookup-Permᴰ (Permᴰ.swap {a = (i, u)} {b = (j, v)} {a' = a'} {b' = b'} {l = l} e f) (n, (m, d)) =
    subst
      (λ (x : Entry).
        ((k : Bytes) → lookup k ((i, u) ∷ (j, v) ∷ l) ≡ lookup k (x ∷ b' ∷ l))
        × Distinct (x ∷ b' ∷ l))
      f
      (subst
        (λ (x : Entry).
          ((k : Bytes) → lookup k ((i, u) ∷ (j, v) ∷ l) ≡ lookup k ((j, v) ∷ x ∷ l))
          × Distinct ((j, v) ∷ x ∷ l))
        e
        (
          λ k. ground (arith, n, m, equal_iff i k, equal_iff j k, equal_iff j i),
          (
            ground (arith, n, m, equal_iff j i, equal_iff i j),
            (ground (arith, n, m, equal_iff j i), d),
          ),
        ))
lookup-Permᴰ (Permᴰ.trans p q) d =
    let (same, d') = lookup-Permᴰ p d in
    let (same', d'') = lookup-Permᴰ q d' in (λ k. same k ∙ same' k, d'')

All-IsKeyed : (m : Todo) → IsKeyed m → All (λ (e : Entry). e.1.call_id ≡ e.0) m
All-IsKeyed [] h = tt
All-IsKeyed ((k, v) ∷ m) (e, h) = (e, All-IsKeyed m h)

IsKeyed-All : (m : Todo) → All (λ (e : Entry). e.1.call_id ≡ e.0) m → IsKeyed m
IsKeyed-All [] h = tt
IsKeyed-All ((k, v) ∷ m) (e, h) = (e, IsKeyed-All m h)

-- The records of one entry.
cdrs_for : Env → (Bytes → Option SipCache) → Entry → List VoipCdr
cdrs_for env q (k, v) = elim (q k) [ none ↦ [] | some found ↦ (paired env v found).1 ]

matched_cdrs-cons :
    (env : Env) (q : Bytes → Option SipCache) (e : Entry) (m : Todo)
    → matched_cdrs env q (e ∷ m) ≡ cdrs_for env q e ++ matched_cdrs env q m
unfolding matched_cdrs cdrs_for
matched_cdrs-cons env q (k, v) m = elim (Option-cases (q k)) [
  | inl e ↦ rw (e, matched_cdrs, cdrs_for) refl
  | inr (u, e) ↦ rw (e, matched_cdrs, cdrs_for) refl
]

exchange : {A : Type 0} (xs ys zs : List A) → Permᴰ (xs ++ (ys ++ zs)) (ys ++ (xs ++ zs))
exchange xs ys zs =
    subst (λ l. Permᴰ l (ys ++ (xs ++ zs))) (append_assoc xs ys zs)
      (subst (λ l. Permᴰ ((xs ++ ys) ++ zs) l) (append_assoc ys xs zs)
        (Permᴰ.append_right zs (Permᴰ.append_comm xs ys)))

matched_cdrs-Permᴰ :
    (env : Env) (q : Bytes → Option SipCache) {xs ys : Todo}
    → Permᴰ xs ys
    → Permᴰ (matched_cdrs env q xs) (matched_cdrs env q ys)
unfolding matched_cdrs
matched_cdrs-Permᴰ env q Permᴰ.nil = Permᴰ.nil
matched_cdrs-Permᴰ env q (Permᴰ.cons {a = a} {b = b} {l₁ = l} {l₂ = l'} e p) =
    subst (λ (x : Entry). Permᴰ (matched_cdrs env q (a ∷ l)) (matched_cdrs env q (x ∷ l'))) e
      (rw (matched_cdrs-cons env q a l, matched_cdrs-cons env q a l')
        (Permᴰ.append_left (cdrs_for env q a) (matched_cdrs-Permᴰ env q p)))
matched_cdrs-Permᴰ env q (Permᴰ.swap {a = a} {b = b} {a' = a'} {b' = b'} {l = l} e f) =
    subst (λ (x : Entry). Permᴰ (matched_cdrs env q (a ∷ b ∷ l)) (matched_cdrs env q (x ∷ b' ∷ l)))
      f
      (subst
        (λ (x : Entry). Permᴰ (matched_cdrs env q (a ∷ b ∷ l)) (matched_cdrs env q (b ∷ x ∷ l))) e
        (rw
          (
            matched_cdrs-cons env q a (b ∷ l),
            matched_cdrs-cons env q b l,
            matched_cdrs-cons env q b (a ∷ l),
            matched_cdrs-cons env q a l,
          )
          (exchange (cdrs_for env q a) (cdrs_for env q b) (matched_cdrs env q l))))
matched_cdrs-Permᴰ env q (Permᴰ.trans p p') =
    Permᴰ.trans (matched_cdrs-Permᴰ env q p) (matched_cdrs-Permᴰ env q p')

module _ (dao : Dao) (w : View dao) (is : IsStore dao w) (env : Env)
    (max_cache_size push_period : ℕ) where
  open w use {Valid, item}

  abbrev CanPush : Todo → Type 0
  CanPush = IsPushable dao w is env max_cache_size push_period

  IsPushable-Permᴰ : {xs ys : Todo} → Permᴰ xs ys → CanPush xs → CanPush ys
  IsPushable-Permᴰ {xs} {ys} p h = record {
    keyed = IsKeyed-All ys (All-Permᴰ _ (Permᴰ.symm p) (All-IsKeyed xs h.keyed));
    distinct = (lookup-Permᴰ p h.distinct).1;
    fits = All-Permᴰ _ (Permᴰ.symm p) h.fits;
  }

  -- Over a cache that keeps its promises: when two maps that are not empty have the same entries, all
  -- of which can be pushed, but Go goes through them in different orders, and whatever names the sets
  -- get, then the pushes of both end with empty maps, the cache holds the same item for every key
  -- behind them, and the same records are sent, in some order.
  pub push_redis-Permᴰ :
      (sid next : Bytes) (s : State dao) (m : Todo)
      → is_empty s.todo ≡ false
      → CanPush s.todo
      → Valid s.store
      → Permᴰ s.todo m
      → (t u : State dao) × (push_redis dao env max_cache_size push_period sid s ≡ ok t)
        × (push_redis dao env max_cache_size push_period next (record s { todo = m }) ≡ ok u)
        × (t.todo ≡ [])
        × (u.todo ≡ [])
        × ((k : Bytes) → item t.store k ≡ item u.store k)
        × Permᴰ t.cdrs u.cdrs
  push_redis-Permᴰ sid next s m n p v perm =
      let (t, r, e, tv, ti, tc) =
        push_redis-item dao w is env max_cache_size push_period sid s n p v in
      let (u, r', e', uv, ui, uc) =
        push_redis-item dao w is env max_cache_size push_period next (record s { todo = m })
          (sym (is_empty-Permᴰ perm) ∙ n) (IsPushable-Permᴰ perm p) v in
      (
        t,
        u,
        r,
        r',
        e,
        e',
        λ k.
            ti k
            ∙ ap (λ o. pushed_item dao w is env max_cache_size push_period o (item s.store k))
                ((lookup-Permᴰ perm p.distinct).0 k)
            ∙ sym (ui k),
        subst (λ l. Permᴰ l u.cdrs) (sym tc)
            (subst (λ l. Permᴰ (s.cdrs ++ matched_cdrs env (item s.store) s.todo) l) (sym uc)
              (Permᴰ.append_left s.cdrs (matched_cdrs-Permᴰ env (item s.store) perm))),
      )
