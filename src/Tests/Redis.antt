-- ===== src/Tests/Redis.antt =====
-- The cache on a server in memory: what it promises, and what the synthesizer does with it.
use cdrrs.Base.{
  ◌≡◌, refl, inl, true, false, ◌&&◌, [], ◌∷◌, none, some, ok, ◌==◌, if◌then◌else◌, equal, codes,
  Bytes,
}
use cdrrs.Model.Item.{empty_sip_item}
use cdrrs.Service.Todo.{lookup}
use cdrrs.Service.Dao.Store.{IsStore}
use cdrrs.Service.Synth.Matched.{matched_cdrs}
use cdrrs.Service.Loop.{Synth, push_redis, handle_expired_key_set}
use cdrrs.Service.Loop.Expired.{IsExpired, handle_expired_key_set-IsExpired}
use cdrrs.Service.Loop.Pushed.{pushed_item, push_redis-item}
use cdrrs.Dao.Redis.{sadd}
use cdrrs.Dao.Sets.{on_sets}
use cdrrs.Dao.Selected.{selected-on_sets}
use cdrrs.Dao.Server.Stored.{redis_dao-IsStore}
use cdrrs.Tests.Data.{env, invite}
use cdrrs.Tests.Memory.{
  Memory, memory_redis, connections, server, codec, is_codec, nothing, cache, view,
}

redis_dao-IsStore_example : IsStore cache view
redis_dao-IsStore_example =
    redis_dao-IsStore (memory_redis false) (connections false) server codec is_codec empty_sip_item

pub promises : IsStore cache view
promises =
    redis_dao-IsStore (memory_redis false) (connections false) server codec is_codec empty_sip_item

-- The connection is given back on the second database.
selected-on_sets_example :
    (connections true).selected
      (on_sets (memory_redis true) (sadd (codes "s1") (codes "c-1" ∷ [])) nothing)
      7
    ≡ 1
selected-on_sets_example =
    selected-on_sets (memory_redis true) (connections true) (sadd (codes "s1") (codes "c-1" ∷ []))
      nothing 7 refl (λ j. refl)

abbrev waiting : Synth Memory
waiting = record {
  todo = (codes "c-1", invite) ∷ [];
  store = nothing;
  ex_synth = [];
  cdrs = [];
  ctime = none;
}

push_redis-item_example :
    (t : Synth Memory) × (push_redis cache env 2 500 (codes "s1") waiting ≡ ok t)
    × (t.todo ≡ [])
    × view.Valid t.store
    × ((k : Bytes)
        → view.item t.store k
          ≡ pushed_item cache view promises env 2 500 (lookup k waiting.todo) (view.item nothing k))
    × (t.cdrs ≡ matched_cdrs env (view.item nothing) waiting.todo)
unfolding lookup
push_redis-item_example =
    push_redis-item cache view promises env 2 500 (codes "s1") waiting refl
      (record { keyed = (refl, tt); distinct = (refl, tt); fits = (inl refl, tt) })
      (record { clean = λ j. refl; no_text = λ k. refl })

-- The server holds the INVITE's half of a call, and the set that names it.
abbrev pub cached_half : Memory
cached_half = record {
  selected = λ j. 0;
  texts = λ n k. if n == 0 && equal (codes "c-1") k then some invite.connect_time else none;
  sets = λ n k. if n == 1 && equal (codes "s1") k then codes "c-1" ∷ [] else [];
}

handle_expired_key_set-IsExpired_example :
    IsExpired cache view promises env 2 500
      (codes "s1")
      (record waiting { store = cached_half })
      (handle_expired_key_set cache env 2 500 (codes "s1") (record waiting { store = cached_half }))
handle_expired_key_set-IsExpired_example =
    handle_expired_key_set-IsExpired cache view promises env 2 500 (codes "s1")
      (record waiting { store = cached_half }) (record { clean = λ j. refl; no_text = λ k. refl })
