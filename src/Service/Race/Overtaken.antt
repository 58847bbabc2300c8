-- ===== src/Service/Race/Overtaken.antt =====
-- The handler of a set that the loop overtakes: a push falls between its fetching of the items and
-- its deleting of them.
use cdrrs.Base.{
  ℕ, ◌-◌, ◌≡◌, refl, ap, ◌∙◌, true, false, List, [], ◌∷◌, ◌++◌, append_assoc, Option, none, some,
  leb, if◌then◌else◌, is_empty, ok, Result, Bytes,
}
use cdrrs.Model.Item.{SipCache}
use cdrrs.Service.Todo.{lookup}
use cdrrs.Service.Dao.{Dao}
use cdrrs.Service.Dao.Store.{member, View, IsStore}
use cdrrs.Service.Synth.{Env, Crash}
use cdrrs.Service.Synth.Matched.{matched_cdrs}
use cdrrs.Service.Synth.Kept.{matched_cdrs-agree}
use cdrrs.Service.Loop.{State, tick, expire_items, push_redis, push_at, on_tick, step}
use cdrrs.Service.Loop.Pushed.{IsPushable, pushed_item, push_redis-item}
use cdrrs.Service.Loop.Expired.{expire_items-agree}
use cdrrs.Service.Race.{fired, obtained, done, handler, loop, handler_step, take_turns}

module _ (dao : Dao) (w : View dao) (is : IsStore dao w) (env : Env)
    (max_cache_size push_period : ℕ) where
  open w use {Valid, item, in_set}

  -- The two first turns of the handler: it holds the items that the cache had for the set.
  record IsFetched (sid : Bytes) (s : State dao) : Type 0 where
    mem : List Bytes
    found : Bytes → Option SipCache
    store : dao.Store
    turned :
        (turns : List _)
        → take_turns dao env max_cache_size push_period (fired sid) s (handler ∷ handler ∷ turns)
          ≡ take_turns dao env max_cache_size push_period
              (obtained sid mem found)
              (record s { store = store })
              turns
    any : is_empty mem ≡ false
    member_mem : (k : Bytes) → member k mem ≡ in_set s.store sid k
    found_are : (k : Bytes) → member k mem ≡ true → found k ≡ item s.store k
    valid : Valid store
    item_store : (k : Bytes) → item store k ≡ item s.store k

  fetched_lem :
      (sid k : Bytes) (s : State dao)
      → Valid s.store
      → in_set s.store sid k ≡ true
      → IsFetched sid s
  unfolding take_turns handler_step
  fetched_lem sid k s v e =
      let (mem, l, d, h) = is.members_lem sid s.store v in
      go mem (dao.get_expired_sip_item_keys_set_members sid s.store) refl l h
        (is.members-Valid sid s.store v) (λ j. is.item-members sid s.store j v)
    where
      go :
          (mem : List Bytes) (x : Option (List Bytes) × dao.Store)
          → dao.get_expired_sip_item_keys_set_members sid s.store ≡ x
          → x.0 ≡ some mem
          → ((j : Bytes) → member j mem ≡ in_set s.store sid j)
          → Valid x.1
          → ((j : Bytes) → item x.1 j ≡ item s.store j)
          → IsFetched sid s
      go [] x same l h v' it = let c : false ≡ true = h k ∙ e in cc
      go (j ∷ ks) (o, store) same l h v' it =
          let (found, f, at) = is.get_lem (j ∷ ks) store refl v' in
          record {
            mem = j ∷ ks;
            found = found;
            store = (dao.get_sip_items (j ∷ ks) store).1;
            turned = λ turns. rw (same, l, f) refl;
            any = refl;
            member_mem = h;
            found_are = λ i m. at i ∙ rw m (it i);
            valid = is.get-Valid (j ∷ ks) store refl v';
            item_store = λ i. is.item-get (j ∷ ks) store i refl v' ∙ it i;
          }

  -- A tick that is due pushes.
  step-push :
      (now before : ℕ) (sid : Bytes) (s t : State dao)
      → s.ctime ≡ some before
      → leb push_period (now - before) ≡ true
      → push_redis dao env max_cache_size push_period sid s ≡ ok t
      → step dao env max_cache_size push_period s (tick now sid)
        ≡ ok (record t { ctime = some now })
  unfolding step on_tick push_at
  step-push now before sid s t e due p = ap over e ∙ rw (due, p) refl
    where
      over : Option ℕ → Result Crash (State dao)
      over c = elim c [
        | none ↦ ok s
        | some b ↦
            if leb push_period (now - b)
            then push_at dao env max_cache_size push_period sid now s
            else ok s
      ]

  -- A state behind a handler that was overtaken.
  pub record IsOvertaken (sid : Bytes) (s t : State dao) : Type 0 where
    pub mem : List Bytes
    pub member_mem : (k : Bytes) → member k mem ≡ in_set s.store sid k
    pub items_are :
        (k : Bytes)
        → item t.store k ≡ (
            if in_set s.store sid k
            then none
            else pushed_item dao w is env max_cache_size push_period
                (lookup k s.todo)
                (item s.store k))
    pub cdrs_are :
        t.cdrs
        ≡ s.cdrs
          ++ (matched_cdrs env (item s.store) s.todo
              ++ expire_items dao env max_cache_size push_period mem (item s.store))
    pub todo_is : t.todo ≡ []

  -- Over a cache that keeps its promises and holds a key of the set: when the handler has fetched the
  -- items and a tick that is due pushes a map that is not empty before the handler goes on, then both
  -- end; the keys of the set are gone from the cache, those that the push has just put there as well;
  -- and the records are those of the pairs of the push and, for every item that the cache had for the
  -- set at first, that of a time-out, also when the push had paired it.
  pub take_turns-IsOvertaken :
      (sid k next : Bytes) (now before : ℕ) (s : State dao)
      → Valid s.store
      → in_set s.store sid k ≡ true
      → is_empty s.todo ≡ false
      → IsPushable dao w is env max_cache_size push_period s.todo
      → s.ctime ≡ some before
      → leb push_period (now - before) ≡ true
      → (t : State dao) × (take_turns dao env max_cache_size push_period
            (fired sid)
            s
            (handler ∷ handler ∷ loop (tick now next) ∷ handler ∷ handler ∷ handler ∷ [])
          ≡ ok (done, t))
        × IsOvertaken sid s t
  unfolding take_turns handler_step
  take_turns-IsOvertaken sid k next now before s v e n p c due =
      let f = fetched_lem sid k s v e in
      let s1 : State dao = record s { store = f.store } in
      let (t, r, te, valid, items, cdrs) =
        push_redis-item dao w is env max_cache_size push_period next s1 n p f.valid in
      let valid2 = is.del-Valid f.mem t.store f.any valid in
      let cdrs' = t.cdrs ++ expire_items dao env max_cache_size push_period f.mem f.found in
      (
        record t {
          ctime = some now;
          cdrs = cdrs';
          store = dao.del_expired_sip_item_keys_sets (sid ∷ []) (dao.del_sip_items f.mem t.store);
        },
        f.turned (loop (tick now next) ∷ handler ∷ handler ∷ handler ∷ [])
            ∙ rw (step-push now before next s1 t c due r) refl,
        record {
          mem = f.mem;
          member_mem = f.member_mem;
          items_are = λ j.
              is.item-del_sets (sid ∷ []) (dao.del_sip_items f.mem t.store) j refl valid2
              ∙ is.item-del f.mem t.store j f.any valid
              ∙ rw (f.member_mem j, items j, f.item_store j) refl;
          cdrs_are =
              ap (λ l. l ++ expire_items dao env max_cache_size push_period f.mem f.found) cdrs
              ∙ append_assoc s.cdrs (matched_cdrs env (item f.store) s.todo)
                  (expire_items dao env max_cache_size push_period f.mem f.found)
              ∙ ap
                  (λ l.
                    s.cdrs ++ (l ++ expire_items dao env max_cache_size push_period f.mem f.found))
                  (matched_cdrs-agree env (item f.store) (item s.store) s.todo
                    (λ j m. f.item_store j))
              ∙ ap (λ l. s.cdrs ++ (matched_cdrs env (item s.store) s.todo ++ l))
                  (expire_items-agree dao w is env max_cache_size push_period f.mem f.found
                    (item s.store) f.found_are);
          todo_is = te;
        },
      )
