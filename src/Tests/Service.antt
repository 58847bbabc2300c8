-- ===== src/Tests/Service.antt =====
-- The synthesizer at concrete inputs.
use cdrrs.Base.{
  sym, ◌∙◌, List, ok, if◌then◌else◌, equal, equal_iff, ◌≡◌, refl, ap, [], ◌∷◌, Option, none, some,
  codes, arith, Bytes,
}
use cdrrs.Model.Item.{SipCache}
use cdrrs.Service.Todo.{Todo, lookup, insert, delete}
use cdrrs.Service.Dao.{Dao}
use cdrrs.Service.Synth.{try_all, Tried}
use cdrrs.Service.Synth.Matched.{try_all_partition, matched_cdrs, matched_keys}
use cdrrs.Service.Loop.{Synth, Event, input, tick, expired, run}
use cdrrs.Service.Loop.Safe.{Returns, Inv, run-Inv}
use cdrrs.Service.Loop.Idle.{IsWaiting, run-IsWaiting}
use cdrrs.Tests.Data.{env, invite, bye}

abbrev at_key : Bytes → Option (Bytes → Option SipCache) → Option SipCache
at_key k none = none
at_key k (some found) = found k

-- A cache in memory: the items, and the sets of keys.
abbrev Memory : Type 0
Memory = Todo × List (Bytes × List Bytes)

abbrev rekey : Bytes → Option SipCache → Option SipCache
rekey k none = none
rekey k (some item) = some (record item { call_id = k })

abbrev id_or : Bytes → Option SipCache → Bytes
id_or k none = k
id_or k (some item) = item.call_id

id_or-rekey : (k : Bytes) (o : Option SipCache) → id_or k (rekey k o) ≡ k
id_or-rekey k none = refl
id_or-rekey k (some item) = refl

fetch : Todo → Bytes → Option SipCache
unfolding lookup
fetch m k = rekey k (lookup k m)

fetch-keyed :
    (m : Todo) (found : Bytes → Option SipCache) (k : Bytes) (item : SipCache)
    → some (fetch m) ≡ some found
    → found k ≡ some item
    → item.call_id ≡ k
unfolding fetch
fetch-keyed m found k item e h =
    let n : fetch m k ≡ found k = ap (at_key k) e in
    sym (ap (id_or k) (n ∙ h)) ∙ id_or-rekey k (lookup k m)

delete_all : List Bytes → Todo → Todo
unfolding delete
delete_all [] m = m
delete_all (k ∷ ks) m = delete_all ks (delete k m)

insert_all : Todo → Todo → Todo
unfolding insert
insert_all [] m = m
insert_all ((k, v) ∷ new) m = insert_all new (insert k v m)

members : Bytes → List (Bytes × List Bytes) → List Bytes
members sid [] = []
members sid ((k, ids) ∷ sets) = if equal k sid then ids else members sid sets

abbrev memory_dao : Dao
memory_dao = record {
  Store = Memory;
  cache_sip_items = λ new s. (insert_all new s.0, s.1);
  get_sip_items = λ ids s. (some (fetch s.0), s);
  del_sip_items = λ ids s. (delete_all ids s.0, s.1);
  cache_expired_sip_item_keys_set = λ sid ids s. (s.0, (sid, ids) ∷ s.1);
  get_expired_sip_item_keys_set_members = λ sid s. (some (members sid s.1), s);
  del_expired_sip_item_keys_sets = λ sids s. (s.0, []);
  items_keyed = λ ids s found k item e h. fetch-keyed s.0 found k item e h;
}

-- The cache answers with the BYE's half of every key that is asked for as "c-1".
abbrev queried : Bytes → Option SipCache
queried k = if equal k (codes "c-1") then some bye else none

queried_keyed : (k : Bytes) (item : SipCache) → queried k ≡ some item → item.call_id ≡ k
queried_keyed k item e = ground (arith, equal_iff k (codes "c-1"))

try_all_partition_example :
    (t : Tried) × (try_all env queried ((codes "c-1", invite) ∷ []) ≡ ok t)
    × ((k : Bytes)
        → lookup k t.todo
          ≡ elim (queried k) [ none ↦ lookup k ((codes "c-1", invite) ∷ []) | some found ↦ none ])
    × (t.cdrs ≡ matched_cdrs env queried ((codes "c-1", invite) ∷ []))
    × (t.queried_keys ≡ matched_keys env queried ((codes "c-1", invite) ∷ []))
try_all_partition_example =
    try_all_partition env queried ((codes "c-1", invite) ∷ []) queried_keyed (refl, tt)

abbrev start : Synth Memory
start = record { todo = []; store = ([], []); ex_synth = []; cdrs = []; ctime = none }

-- A second call fills the map, so that the first one's halves meet in the cache.
abbrev events : List Event
events =
    input invite 10 (codes "s1")
    ∷ input (record invite { call_id = codes "c-2" }) 20 (codes "s2")
    ∷ input bye 30 (codes "s3")
    ∷ tick 900 (codes "s4")
    ∷ expired (codes "s2")
    ∷ []

run-Inv_example : Returns (Inv memory_dao env 2 500) (run memory_dao env 2 500 start events)
run-Inv_example =
    run-Inv memory_dao env 2 500 start events (record { keyed = tt; room = omega arith })

-- Ticks long after the INVITE's half came leave it where it is.
abbrev late_ticks : List Event
late_ticks = tick 600 (codes "s1") ∷ input invite 700 (codes "s2") ∷ tick 9000 (codes "s3") ∷ []

run-IsWaiting_example :
    Returns (IsWaiting memory_dao env 2 500 start) (run memory_dao env 2 500 start late_ticks)
run-IsWaiting_example = run-IsWaiting memory_dao env 2 500 start late_ticks tt refl tt (omega arith)
