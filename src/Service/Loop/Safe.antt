-- ===== src/Service/Loop/Safe.antt =====
-- The loops never crash, and keep the map keyed and below its limit.
use cdrrs.Base.{
  ℕ, ◌+◌, ◌-◌, ◌≤◌, ◌<◌, ◌≡◌, refl, inl, inr, true, false, Bool, List, [], ◌∷◌, ◌++◌, Option, none,
  some, ◌==◌, leb, is_empty, Result, ok, err, if◌then◌else◌, Bool-cases, Option-cases, length,
  Bytes, arith,
}
use cdrrs.Model.Item.{SipCache}
use cdrrs.Service.Todo.{Todo, lookup, delete, sip_item_keys}
use cdrrs.Service.Todo.Keys.{
  IsKeyed, lookup-IsKeyed, insert-IsKeyed, delete-IsKeyed, length-insert, length-delete,
}
use cdrrs.Service.Dao.{Dao}
use cdrrs.Service.Synth.{Env, Crash, ◌>>=◌, append, Appended}
use cdrrs.Service.Synth.Pairs.{paired, append_missing, append_found}
use cdrrs.Service.Synth.Matched.{FoundKeyed, try_all-tried, kept-IsKeyed, length-kept}
use cdrrs.Service.Loop.{
  State, Event, try_queried, move_to_cache, push_at, on_input, on_tick, expire_keys, expire_found,
  input, tick, expired, try_synthesize, push_redis, handle_expired_key_set, step, run,
}

-- The result of an operation that does not crash, and what holds of it.
abbrev pub Returns : {A : Type 0} → (A → Type 0) → Result Crash A → Type 0
Returns P (ok a) = P a
Returns P (err e) = ⊥

pub Returns-bind :
    {A B : Type 0} (P : A → Type 0) (Q : B → Type 0) (m : Result Crash A) (f : A → Result Crash B)
    → Returns P m
    → ((a : A) → P a → Returns Q (f a))
    → Returns Q (m >>= f)
Returns-bind P Q (ok a) f h k = k a h
Returns-bind P Q (err e) f h k = absurd h

pub append-Returns :
    (env : Env) (todo : Todo) (item : SipCache)
    → IsKeyed todo
    → Returns
        (λ (r : Appended). IsKeyed r.0 × (length r.0 ≤ length todo + 1))
        (append env todo item)
append-Returns env todo item h = elim (Option-cases (lookup item.call_id todo)) [
  | inl e ↦
      rw (append_missing env todo item e)
        (insert-IsKeyed item todo h, length-insert item.call_id item todo)
  | inr (val, e) ↦
      rw (append_found env todo item val e (lookup-IsKeyed item.call_id val todo h e))
        (either (paired env val item).0 val.call_id)
]
  where
    either :
        (b : Bool) (k : Bytes)
        → IsKeyed (if b then delete k todo else todo)
          × (length (if b then delete k todo else todo) ≤ length todo + 1)
    either true k = (delete-IsKeyed k todo h, omega (arith, length-delete k todo))
    either false k = (h, omega arith)

module _ (dao : Dao) (env : Env) (max_cache_size push_period : ℕ) where
  -- Every item of the map stands under its Call-ID, and there is room for one more.
  pub record Inv (s : State dao) : Type 0 where
    pub keyed : IsKeyed s.todo
    pub room : length s.todo < max_cache_size

  abbrev Kept : State dao → State dao → Type 0
  Kept s t = IsKeyed t.todo × (length t.todo ≤ length s.todo)

  try_queried-Returns :
      (s : State dao) (r : Option (Bytes → Option SipCache) × dao.Store)
      → ((q : Bytes → Option SipCache) → r.0 ≡ some q → FoundKeyed q)
      → IsKeyed s.todo
      → Returns (Kept s) (try_queried dao env max_cache_size push_period s r)
  unfolding try_queried
  try_queried-Returns s (none, store) f h = (h, omega arith)
  try_queried-Returns s (some q, store) f h =
      rw (try_all-tried env q s.todo (f q refl) h) (kept-IsKeyed q s.todo h, length-kept q s.todo)

  try_synthesize-Returns :
      (s : State dao)
      → IsKeyed s.todo
      → Returns (Kept s) (try_synthesize dao env max_cache_size push_period s)
  unfolding try_synthesize
  try_synthesize-Returns s h = elim (Bool-cases (is_empty s.todo)) [
    | inl e ↦ rw (e, try_synthesize) (h, omega arith)
    | inr n ↦
        rw (n, try_synthesize)
          (try_queried-Returns s (dao.get_sip_items (sip_item_keys s.todo) s.store)
            (λ q e k item. dao.items_keyed (sip_item_keys s.todo) s.store q k item e) h)
  ]

  pub todo-move_to_cache :
      (sid : Bytes) (s : State dao)
      → (move_to_cache dao env max_cache_size push_period sid s).todo ≡ []
  unfolding move_to_cache
  todo-move_to_cache sid s = ground arith

  push_redis-Returns :
      (sid : Bytes) (s : State dao)
      → IsKeyed s.todo
      → Returns
          (λ (t : State dao). t.todo ≡ [])
          (push_redis dao env max_cache_size push_period sid s)
  unfolding push_redis
  push_redis-Returns sid s h = elim (Bool-cases (is_empty s.todo)) [
    | inl e ↦ rw (e, push_redis) (ground arith)
    | inr n ↦
        rw (n, push_redis)
          (Returns-bind (Kept s) (λ (t : State dao). t.todo ≡ [])
            (try_queried dao env max_cache_size push_period s
              (dao.get_sip_items (sip_item_keys s.todo) s.store))
            _
            (try_queried-Returns s (dao.get_sip_items (sip_item_keys s.todo) s.store)
              (λ q e k item. dao.items_keyed (sip_item_keys s.todo) s.store q k item e) h)
            (λ t k. todo-move_to_cache sid t))
  ]

  push_at-Inv :
      (sid : Bytes) (now : ℕ) (s : State dao)
      → 0 < max_cache_size
      → IsKeyed s.todo
      → Returns Inv (push_at dao env max_cache_size push_period sid now s)
  unfolding push_at
  push_at-Inv sid now s m h =
      Returns-bind (λ (t : State dao). t.todo ≡ []) Inv _ _ (push_redis-Returns sid s h)
        (λ t e. record { keyed = rw e tt; room = rw e m })

  on_input-Inv :
      (item : SipCache) (now : ℕ) (sid : Bytes) (s : State dao)
      → Inv s
      → Returns Inv (on_input dao env max_cache_size push_period item now sid s)
  unfolding on_input
  on_input-Inv item now sid s v = elim (Bool-cases (is_empty item.call_id)) [
    | inl e ↦ rw (e, on_input) v
    | inr n ↦
        rw (n, on_input)
          (Returns-bind _ Inv (append env s.todo item) _ (append-Returns env s.todo item v.keyed)
            after)
  ]
    where
      after :
          (r : Appended)
          → IsKeyed r.0 × (length r.0 ≤ length s.todo + 1)
          → Returns Inv (
              if length r.0 == max_cache_size
              then push_at dao env max_cache_size push_period sid now
                  (record s { todo = r.0; cdrs = s.cdrs ++ r.1 })
              else ok (record s { todo = r.0; cdrs = s.cdrs ++ r.1 }))
      after r (keyed, l) = elim (Bool-cases (length r.0 == max_cache_size)) [
        | inl e ↦ rw e (push_at-Inv sid now _ (omega (arith, v.room)) keyed)
        | inr n ↦ rw n (record { keyed = keyed; room = ground (arith, v.room) })
      ]

  on_tick-Inv :
      (now : ℕ) (sid : Bytes) (s : State dao)
      → Inv s
      → Returns Inv (on_tick dao env max_cache_size push_period now sid s)
  unfolding on_tick
  on_tick-Inv now sid s v = elim (Option-cases s.ctime) [
    | inl e ↦ rw (e, on_tick) v
    | inr (before, e) ↦
        rw (e, on_tick)
          (elim (Bool-cases (leb push_period (now - before))) [
            | inl due ↦ rw due (push_at-Inv sid now s (omega (arith, v.room)) v.keyed)
            | inr n ↦ rw n v
          ])
  ]

  expire_found-Inv :
      (sid : Bytes) (keys : List Bytes) (s : State dao)
      (r : Option (Bytes → Option SipCache) × dao.Store)
      → Inv s
      → Inv (expire_found dao env max_cache_size push_period sid keys s r)
  unfolding expire_found
  expire_found-Inv sid keys s (none, store) v = record { keyed = v.keyed; room = v.room }
  expire_found-Inv sid keys s (some q, store) v = record { keyed = v.keyed; room = v.room }

  expire_keys-Inv :
      (sid : Bytes) (s : State dao) (r : Option (List Bytes) × dao.Store)
      → Inv s
      → Inv (expire_keys dao env max_cache_size push_period sid s r)
  unfolding expire_keys
  expire_keys-Inv sid s (none, store) v = record { keyed = v.keyed; room = v.room }
  expire_keys-Inv sid s (some [], store) v = record { keyed = v.keyed; room = v.room }
  expire_keys-Inv sid s (some (k ∷ ks), store) v =
      expire_found-Inv sid (k ∷ ks) _ _ (record { keyed = v.keyed; room = v.room })

  expired-Inv :
      (sid : Bytes) (s : State dao)
      → Inv s
      → Inv (handle_expired_key_set dao env max_cache_size push_period sid s)
  unfolding handle_expired_key_set
  expired-Inv sid s v = expire_keys-Inv sid s _ v

  step-Inv :
      (s : State dao) (e : Event)
      → Inv s
      → Returns Inv (step dao env max_cache_size push_period s e)
  unfolding step
  step-Inv s (input item now sid) v = on_input-Inv item now sid s v
  step-Inv s (tick now sid) v = on_tick-Inv now sid s v
  step-Inv s (expired sid) v = expired-Inv sid s v

  -- From a state in which every item of the map stands under its Call-ID and the map is below its
  -- limit, whatever items, ticks and timers follow in whatever order, for any answers of the cache
  -- that satisfy its interface, the loops do not crash, and the state that they reach is such a state
  -- again.
  pub run-Inv :
      (s : State dao) (es : List Event)
      → Inv s
      → Returns Inv (run dao env max_cache_size push_period s es)
  unfolding run
  run-Inv s [] v = v
  run-Inv s (e ∷ es) v =
      Returns-bind Inv Inv (step dao env max_cache_size push_period s e) _ (step-Inv s e v)
        (λ t w. run-Inv t es w)
