-- ===== src/Service/Loop.antt =====
-- service/synth.go: `trySynthesize`, the events of `realTimeSynth` and of `expiredSynth`.
pub mod Safe
pub mod Idle
pub mod Pushed
pub mod Expired
pub mod Order
use cdrrs.Base.{
  ℕ, ◌+◌, ◌-◌, ◌&&◌, Bool, true, false, List, [], ◌∷◌, ◌++◌, Option, none, some, ◌==◌, leb,
  if◌then◌else◌, is_empty, length, Result, ok, err, Bytes,
}
use cdrrs.Model.Item.{SipCache}
use cdrrs.Model.Cdr.{VoipCdr, new_expired_cdr}
use cdrrs.Service.Todo.{Todo, sip_item_keys}
use cdrrs.Service.Dao.{Dao}
use cdrrs.Service.Synth.{Env, Crash, ◌>>=◌, collect, append, Tried, try_all}

-- The synthesizer, the cache, the sets of keys for which a timer was started, the records sent so
-- far, and when the items were last moved to the cache (`none` for the zero time).
pub record Synth (Store : Type 0) : Type 0 where
  pub todo : Todo
  pub store : Store
  pub ex_synth : List Bytes
  pub cdrs : List VoipCdr
  pub ctime : Option ℕ

-- What reaches the loops: an item from `Input` and the time when it has been handled, with the name
-- that `sipItemKeysSetId` would give a set of keys; a tick at a time; the timer of a set.
pub data Event : Type 0 where
  input : SipCache → ℕ → Bytes → Event
  tick : ℕ → Bytes → Event
  expired : Bytes → Event

abbrev pub State : Dao → Type 0
State dao = Synth dao.Store

module _ (dao : Dao) (env : Env) (max_cache_size push_period : ℕ) where
  -- `if len(queriedKeys) != 0 { DelSipItems(queriedKeys) }`.
  del_queried : List Bytes → dao.Store → dao.Store
  del_queried [] s = s
  del_queried (k ∷ ks) s = dao.del_sip_items (k ∷ ks) s

  try_queried : State dao → Option (Bytes → Option SipCache) × dao.Store → Result Crash (State dao)
  try_queried s (none, store) = ok (record s { store = store })
  try_queried s (some all_queried, store) = do
    t ← try_all env all_queried s.todo
    ok (record s {
      todo = t.todo;
      cdrs = s.cdrs ++ t.cdrs;
      store = del_queried t.queried_keys store;
    })

  unfoldable pub try_synthesize : State dao → Result Crash (State dao)
  unfolding try_queried del_queried
  try_synthesize s =
      if is_empty s.todo
      then ok s
      else try_queried s (dao.get_sip_items (sip_item_keys s.todo) s.store)

  -- What is left after the attempt goes to the cache, under a set of keys with a timer.
  unfoldable pub move_to_cache : Bytes → State dao → State dao
  move_to_cache sid s = if is_empty s.todo then s else record s {
    todo = [];
    store =
        dao.cache_expired_sip_item_keys_set sid (sip_item_keys s.todo)
          (dao.cache_sip_items s.todo s.store);
    ex_synth = s.ex_synth ++ sid ∷ [];
  }

  unfoldable pub push_redis : Bytes → State dao → Result Crash (State dao)
  unfolding try_synthesize move_to_cache
  push_redis sid s =
      if is_empty s.todo then ok s else do t ← try_synthesize s; ok (move_to_cache sid t)

  unfoldable pub push_at : Bytes → ℕ → State dao → Result Crash (State dao)
  push_at sid now s = do t ← push_redis sid s; ok (record t { ctime = some now })

  -- `case item := <-synth.cdrCh`.
  unfoldable pub on_input : SipCache → ℕ → Bytes → State dao → Result Crash (State dao)
  on_input item now sid s = if is_empty item.call_id then ok s else do
    (todo, cdrs) ← append env s.todo item
    let s' : State dao = record s { todo = todo; cdrs = s.cdrs ++ cdrs }
    if length s'.todo == max_cache_size then push_at sid now s' else ok s'

  -- `case <-ticker.C`.
  unfoldable pub on_tick : ℕ → Bytes → State dao → Result Crash (State dao)
  on_tick now sid s = elim s.ctime [
    | none ↦ ok s
    | some before ↦ if leb push_period (now - before) then push_at sid now s else ok s
  ]

  -- The handler of `OnExpired`: the keys in the order of the set.
  unfoldable pub expire_items : List Bytes → (Bytes → Option SipCache) → List VoipCdr
  expire_items [] items = []
  expire_items (k ∷ ks) items =
      let rest = expire_items ks items in
      elim (items k) [
        | none ↦ rest
        | some v ↦ collect (new_expired_cdr env.parse_time env.positions env.pooled k v) ++ rest
      ]

  unfoldable pub expire_found :
      Bytes → List Bytes → State dao → Option (Bytes → Option SipCache) × dao.Store → State dao
  expire_found sid keys s (none, store) = record s { store = store }
  expire_found sid keys s (some items, store) = record s {
    cdrs = s.cdrs ++ expire_items keys items;
    store = dao.del_expired_sip_item_keys_sets (sid ∷ []) (dao.del_sip_items keys store);
  }

  unfoldable pub expire_keys : Bytes → State dao → Option (List Bytes) × dao.Store → State dao
  expire_keys sid s (none, store) = record s { store = store }
  expire_keys sid s (some [], store) = record s { store = store }
  expire_keys sid s (some (k ∷ ks), store) =
      expire_found sid (k ∷ ks) (record s { store = store }) (dao.get_sip_items (k ∷ ks) store)

  -- `handleExpiredKeySet`.
  unfoldable pub handle_expired_key_set : Bytes → State dao → State dao
  unfolding expire_keys expire_found expire_items
  handle_expired_key_set sid s =
      expire_keys sid s (dao.get_expired_sip_item_keys_set_members sid s.store)

  unfoldable pub step : State dao → Event → Result Crash (State dao)
  unfolding on_input on_tick push_at
  step s (input item now sid) = on_input item now sid s
  step s (tick now sid) = on_tick now sid s
  step s (expired sid) = ok (handle_expired_key_set sid s)

  unfoldable pub run : State dao → List Event → Result Crash (State dao)
  unfolding step
  run s [] = ok s
  run s (e ∷ es) = do s' ← step s e; run s' es
