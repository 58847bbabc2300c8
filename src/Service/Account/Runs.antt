-- ===== src/Service/Account/Runs.antt =====
-- The loops of service/synth.go, over a cache that keeps its promises: every run of them is a
-- sequence of moves of the account.
use cdrrs.Base.{
  ℕ, ◌-◌, ◌<◌, refl, sym, ap, List, [], ◌∷◌, ◌++◌, append-nil, none, some, ok, if◌then◌else◌,
  is_empty, length, leb, ◌==◌, Bool-cases, inl, inr, All, Bytes, arith, Option, err,
}
use mathlib.Core.Path.{subst}
use cdrrs.Model.Item.{SipCache}
use cdrrs.Service.Dao.{Dao}
use cdrrs.Service.Dao.Store.{View, IsStore}
use cdrrs.Service.Synth.{Env}
use cdrrs.Service.Loop.{
  State, Event, input, tick, expired, push_at, on_input, on_tick, handle_expired_key_set, step, run,
}
use cdrrs.Service.Loop.Safe.{Returns, Returns-bind}
use cdrrs.Service.Loop.Pushed.{IsPushable}
use cdrrs.Service.Loop.Expired.{handle_expired_key_set-IsExpired}
use cdrrs.Service.Account.{all_cdrs, ignores}
use cdrrs.Service.Account.Arrivals.{Good, Accounts, append-Move}
use cdrrs.Service.Account.Pushes.{
  Accounts_none, Accounts_one, Accounts_trans, push_redis-Accounts, expired-Accounts,
}

-- The items that come with the events.
abbrev pub arriving : Event → List SipCache
arriving (input item now sid) = item ∷ []
arriving (tick now sid) = []
arriving (expired sid) = []

unfoldable pub items_of : List Event → List SipCache
items_of [] = []
items_of (e ∷ es) = arriving e ++ items_of es

module _ (dao : Dao) (w : View dao) (is : IsStore dao w) (env : Env)
    (max_cache_size push_period : ℕ) where
  open w use {Valid, Fits}

  abbrev GoodState : State dao → Type 0
  GoodState = Good dao w is env max_cache_size push_period

  -- A good state, with an account of what came between.
  abbrev pub Reached : State dao → List SipCache → State dao → Type 0
  Reached s items t = GoodState t × Accounts dao w is env max_cache_size push_period s items t

  -- A push, and the time of it.
  push_at-Reached :
      (now : ℕ) (sid : Bytes) (s : State dao)
      → 0 < max_cache_size
      → IsPushable dao w is env max_cache_size push_period s.todo
      → Valid s.store
      → Returns (Reached s []) (push_at dao env max_cache_size push_period sid now s)
  unfolding push_at
  push_at-Reached now sid s m p v =
      let (t, r, e, valid, a) =
        push_redis-Accounts dao w is env max_cache_size push_period sid s p v in
      rw r (
        record {
          pushable = rw e (record { keyed = tt; distinct = tt; fits = tt });
          valid = valid;
          room = rw e m;
        },
        record { fates = a.fates; cdrs_are = a.cdrs_are; moves = a.moves },
      )

  Reached-trans :
      (s t : State dao) (items : List SipCache)
      → Accounts dao w is env max_cache_size push_period s items t
      → (u : State dao) → Reached t [] u
      → Reached s items u
  Reached-trans s t items a u (g, b) = (
    g,
    subst (λ l. Accounts dao w is env max_cache_size push_period s l u) (append-nil items)
        (Accounts_trans dao w is env max_cache_size push_period s t u items [] a b),
  )

  Returns-then :
      (P Q : State dao → Type 0) (r : _) → ((t : State dao) → P t → Q t) → Returns P r → Returns Q r
  Returns-then P Q (ok t) f h = f t h
  Returns-then P Q (err e) f h = h

  on_input-Reached :
      (item : SipCache) (now : ℕ) (sid : Bytes) (s : State dao)
      → GoodState s
      → Fits item
      → Returns (Reached s (item ∷ [])) (on_input dao env max_cache_size push_period item now sid s)
  unfolding on_input all_cdrs
  on_input-Reached item now sid s g f = elim (Bool-cases (is_empty item.call_id)) [
    | inl e ↦
        rw (e, on_input)
          (
            g,
            Accounts_one dao w is env max_cache_size push_period s s (item ∷ []) []
                (sym (append-nil s.cdrs)) (ignores item e refl refl (λ k. refl) (λ k. refl)),
          )
    | inr n ↦
        let (r, e, p, l, fates, c, m) =
          append-Move dao w is env max_cache_size push_period s.todo s.store item g.pushable f n in
        let s' : State dao = record s { todo = r.0; cdrs = s.cdrs ++ r.1 } in
        let a =
          Accounts_one dao w is env max_cache_size push_period s s' (item ∷ []) fates
            (ap (λ x. s.cdrs ++ x) c) m in
        rw (n, e)
          (elim (Bool-cases (length r.0 == max_cache_size)) [
            | inl full ↦ rw full (
                Returns-then (Reached s' []) (Reached s (item ∷ [])) _
                  (Reached-trans s s' (item ∷ []) a)
                  (push_at-Reached now sid s' (omega (arith, g.room)) p g.valid))
            | inr x ↦
                rw x (record { pushable = p; valid = g.valid; room = ground (arith, g.room) }, a)
          ])
  ]

  on_tick-Reached :
      (now : ℕ) (sid : Bytes) (s : State dao)
      → GoodState s
      → Returns (Reached s []) (on_tick dao env max_cache_size push_period now sid s)
  unfolding on_tick
  on_tick-Reached now sid s g = since s.ctime
    where
      since :
          (ctime : Option ℕ)
          → Returns (Reached s []) (elim ctime [
            | none ↦ ok s
            | some before ↦
                if leb push_period (now - before)
                then push_at dao env max_cache_size push_period sid now s
                else ok s
          ])
      since none = (g, Accounts_none dao w is env max_cache_size push_period s)
      since (some before) = elim (Bool-cases (leb push_period (now - before))) [
        | inl due ↦ rw due (push_at-Reached now sid s (omega (arith, g.room)) g.pushable g.valid)
        | inr n ↦ rw n (g, Accounts_none dao w is env max_cache_size push_period s)
      ]

  expired-Reached :
      (sid : Bytes) (s : State dao)
      → GoodState s
      → Reached s [] (handle_expired_key_set dao env max_cache_size push_period sid s)
  expired-Reached sid s g =
      let x =
        handle_expired_key_set-IsExpired dao w is env max_cache_size push_period sid s g.valid in
      (
        record { pushable = rw x.todo_is g.pushable; valid = x.valid; room = rw x.todo_is g.room },
        expired-Accounts dao w is env max_cache_size push_period sid s g.valid,
      )

  step-Reached :
      (s : State dao) (e : Event)
      → GoodState s
      → All Fits (arriving e)
      → Returns (Reached s (arriving e)) (step dao env max_cache_size push_period s e)
  unfolding step
  step-Reached s (input item now sid) g (f, u) = on_input-Reached item now sid s g f
  step-Reached s (tick now sid) g f = on_tick-Reached now sid s g
  step-Reached s (expired sid) g f = expired-Reached sid s g

  All_left : (xs ys : List SipCache) → All Fits (xs ++ ys) → All Fits xs × All Fits ys
  All_left [] ys h = (tt, h)
  All_left (x ∷ xs) ys (h, hs) = let (a, b) = All_left xs ys hs in ((h, a), b)

  -- Over a cache that keeps its promises, from a state whose map has one item for each Call-ID, all
  -- of which the cache can encode, and is below its limit: whatever items that can be encoded, ticks
  -- and timers follow, each handled as a whole, the loops end in such a state again, and what they
  -- did to the items and to the records is a sequence of moves of the account, which takes up exactly
  -- the items of the events, in their order, and whose fates have the records that were sent, in
  -- their order.
  pub run-Reached :
      (s : State dao) (es : List Event)
      → GoodState s
      → All Fits (items_of es)
      → Returns (Reached s (items_of es)) (run dao env max_cache_size push_period s es)
  unfolding run items_of
  run-Reached s [] g f = (g, Accounts_none dao w is env max_cache_size push_period s)
  run-Reached s (e ∷ es) g f =
      let (f1, f2) = All_left (arriving e) (items_of es) f in
      Returns-bind (Reached s (arriving e)) (Reached s (arriving e ++ items_of es))
        (step dao env max_cache_size push_period s e) _ (step-Reached s e g f1)
        (λ t (r : Reached s (arriving e) t).
          Returns-then (Reached t (items_of es)) (Reached s (arriving e ++ items_of es)) _
            (λ u (q : Reached t (items_of es) u). (
              q.0,
              Accounts_trans dao w is env max_cache_size push_period s t u (arriving e)
                  (items_of es) r.1 q.1,
            ))
            (run-Reached t es r.0 f2))
