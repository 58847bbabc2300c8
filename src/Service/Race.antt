-- ===== src/Service/Race.antt =====
-- service/synth.go: `expiredSynth` starts goroutines that run `handleExpiredKeySet` beside
-- `realTimeSynth`. Here the handler stands still between its calls of the cache.
pub mod Overtaken
use cdrrs.Base.{List, [], ◌∷◌, ◌++◌, Option, none, some, ℕ, ok, Result, Bytes}
use cdrrs.Model.Item.{SipCache}
use cdrrs.Service.Dao.{Dao}
use cdrrs.Service.Synth.{Env, Crash, ◌>>=◌}
use cdrrs.Service.Loop.{State, Event, expire_items, step}

-- Where the handler of a set stands: which call comes next, with what the earlier ones gave.
pub data Handler : Type 0 where
  fired : Bytes → Handler
  listed : Bytes → List Bytes → Handler
  obtained : Bytes → List Bytes → (Bytes → Option SipCache) → Handler
  reported : Bytes → List Bytes → Handler
  emptied : Bytes → Handler
  done : Handler

-- `if err != nil || len(keys) == 0 { return }`.
abbrev pub after_members : Bytes → Option (List Bytes) → Handler
after_members sid none = done
after_members sid (some []) = done
after_members sid (some (k ∷ ks)) = listed sid (k ∷ ks)

-- `if err != nil || len(items) == 0 { return }`.
abbrev pub after_get : Bytes → List Bytes → Option (Bytes → Option SipCache) → Handler
after_get sid keys none = done
after_get sid keys (some items) = obtained sid keys items

-- A turn of the handler, up to its next call, or of the loop, with one event.
pub data Turn : Type 0 where
  handler : Turn
  loop : Event → Turn

module _ (dao : Dao) (env : Env) (max_cache_size push_period : ℕ) where
  unfoldable pub handler_step : Handler → State dao → Handler × State dao
  handler_step (fired sid) s =
      let (keys, store) = dao.get_expired_sip_item_keys_set_members sid s.store in
      (after_members sid keys, record s { store = store })
  handler_step (listed sid keys) s =
      let (items, store) = dao.get_sip_items keys s.store in
      (after_get sid keys items, record s { store = store })
  handler_step (obtained sid keys items) s = (
    reported sid keys,
    record s { cdrs = s.cdrs ++ expire_items dao env max_cache_size push_period keys items },
  )
  handler_step (reported sid keys) s =
      (emptied sid, record s { store = dao.del_sip_items keys s.store })
  handler_step (emptied sid) s =
      (done, record s { store = dao.del_expired_sip_item_keys_sets (sid ∷ []) s.store })
  handler_step done s = (done, s)

  unfoldable pub take_turns : Handler → State dao → List Turn → Result Crash (Handler × State dao)
  unfolding handler_step
  take_turns h s [] = ok (h, s)
  take_turns h s (handler ∷ turns) = let (h', s') = handler_step h s in take_turns h' s' turns
  take_turns h s (loop e ∷ turns) = do
    s' ← step dao env max_cache_size push_period s e
    take_turns h s' turns
