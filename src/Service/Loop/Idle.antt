-- ===== src/Service/Loop/Idle.antt =====
-- `realTimeSynth` before the map was full for the first time.
use cdrrs.Base.{
  ℕ, ◌+◌, ◌≤◌, ◌<◌, ◌≡◌, refl, ◌∙◌, inl, inr, List, [], ◌∷◌, ◌++◌, none, err, Result, ◌==◌,
  is_empty, ok, if◌then◌else◌, Bool-cases, length, Bytes, arith,
}
use cdrrs.Model.Item.{SipCache}
use cdrrs.Service.Todo.Keys.{IsKeyed}
use cdrrs.Service.Dao.{Dao}
use cdrrs.Service.Synth.{Env, Crash, append, Appended}
use cdrrs.Service.Loop.{State, Event, input, tick, expired, step, run, on_input, on_tick, push_at}
use cdrrs.Service.Loop.Safe.{Returns, Returns-bind, append-Returns}

-- Items and ticks, and no timer of a set.
abbrev pub HasNoTimer : List Event → Type 0
HasNoTimer [] = Unit
HasNoTimer (input item now sid ∷ es) = HasNoTimer es
HasNoTimer (tick now sid ∷ es) = HasNoTimer es
HasNoTimer (expired sid ∷ es) = ⊥

abbrev pub num_items : List Event → ℕ
num_items [] = 0
num_items (input item now sid ∷ es) = num_items es + 1
num_items (tick now sid ∷ es) = num_items es
num_items (expired sid ∷ es) = num_items es

Returns-imp :
    {A : Type 0} (P Q : A → Type 0) (m : Result Crash A)
    → Returns P m
    → ((a : A) → P a → Q a)
    → Returns Q m
Returns-imp P Q (ok a) h k = k a h
Returns-imp P Q (err e) h k = h

module _ (dao : Dao) (env : Env) (max_cache_size push_period : ℕ) where
  -- No push was made between the two states, so that the cache and the timers are the same.
  pub record IsWaiting (s t : State dao) : Type 0 where
    pub never_pushed : t.ctime ≡ none
    pub same_store : t.store ≡ s.store
    pub same_timers : t.ex_synth ≡ s.ex_synth
    pub keyed : IsKeyed t.todo

  Waits : ℕ → State dao → State dao → Type 0
  Waits n s t = IsWaiting s t × (length t.todo ≤ length s.todo + n)

  on_input-Waits :
      (item : SipCache) (now : ℕ) (sid : Bytes) (s : State dao)
      → s.ctime ≡ none
      → IsKeyed s.todo
      → length s.todo + 1 < max_cache_size
      → Returns (Waits 1 s) (on_input dao env max_cache_size push_period item now sid s)
  unfolding on_input Waits
  on_input-Waits item now sid s c k l = elim (Bool-cases (is_empty item.call_id)) [
    | inl e ↦
        rw (e, on_input)
          (
            record { never_pushed = c; same_store = refl; same_timers = refl; keyed = k },
            omega arith,
          )
    | inr n ↦
        rw (n, on_input)
          (Returns-bind _ (Waits 1 s) (append env s.todo item) _ (append-Returns env s.todo item k)
            after)
  ]
    where
      after :
          (r : Appended)
          → IsKeyed r.0 × (length r.0 ≤ length s.todo + 1)
          → Returns (Waits 1 s) (
              if length r.0 == max_cache_size
              then push_at dao env max_cache_size push_period sid now
                  (record s { todo = r.0; cdrs = s.cdrs ++ r.1 })
              else ok (record s { todo = r.0; cdrs = s.cdrs ++ r.1 }))
      after r (keyed, b) = elim (Bool-cases (length r.0 == max_cache_size)) [
        | inl e ↦ absurd (ground (arith, l))
        | inr n ↦
            rw n
              (record { never_pushed = c; same_store = refl; same_timers = refl; keyed = keyed }, b)
      ]

  trans : (s t u : State dao) → IsWaiting s t → IsWaiting t u → IsWaiting s u
  trans s t u w v = record {
    never_pushed = v.never_pushed;
    same_store = v.same_store ∙ w.same_store;
    same_timers = v.same_timers ∙ w.same_timers;
    keyed = v.keyed;
  }

  on_tick-ok :
      (now : ℕ) (sid : Bytes) (s : State dao)
      → s.ctime ≡ none
      → on_tick dao env max_cache_size push_period now sid s ≡ ok s
  unfolding on_tick
  on_tick-ok now sid s h = cc

  -- From a state in which no push was made yet and every item of the map stands under its Call-ID,
  -- whatever items and ticks follow, no timer of a set among them, if the items that wait and those
  -- that come are together fewer than `max_cache_size`: the loop does not crash, and no push is made.
  -- However many ticks there are and however late, the items that wait are neither tried against the
  -- cache nor moved to it: the cache and the sets with a timer are what they were.
  pub run-IsWaiting :
      (s : State dao) (es : List Event)
      → HasNoTimer es
      → s.ctime ≡ none
      → IsKeyed s.todo
      → length s.todo + num_items es < max_cache_size
      → Returns (IsWaiting s) (run dao env max_cache_size push_period s es)
  unfolding run step Waits
  run-IsWaiting s [] q c k l = record {
    never_pushed = c;
    same_store = refl;
    same_timers = refl;
    keyed = k;
  }
  run-IsWaiting s (input item now sid ∷ es) q c k l =
      Returns-bind (Waits 1 s) (IsWaiting s)
        (step dao env max_cache_size push_period s (input item now sid)) _
        (on_input-Waits item now sid s c k (omega (arith, l)))
        (λ t h.
          Returns-imp (IsWaiting t) (IsWaiting s) _
            (run-IsWaiting t es q h.0.never_pushed h.0.keyed (omega (arith, l, h.1)))
            (λ u v. trans s t u h.0 v))
  run-IsWaiting s (tick now sid ∷ es) q c k l =
      rw (on_tick-ok now sid s c) (run-IsWaiting s es q c k l)
  run-IsWaiting s (expired sid ∷ es) q c k l = absurd q
