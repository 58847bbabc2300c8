-- ===== src/Service/Synth.antt =====
-- service/synth.go: the synthesizer pairs the two halves of each call, from what it holds itself and
-- from the shared cache. The loops around these functions are in Service/Loop.antt.
pub mod Pairs
pub mod Matched
pub mod Kept
use cdrrs.Base.{
  ℕ, zero, suc, ◌+◌, ◌-◌, ◌≤◌, ◌≡◌, ◌&&◌, not, Bool, true, false, List, [], ◌∷◌, ◌++◌, Option, none,
  some, ◌==◌, leb, if◌then◌else◌, equal, is_empty, length, Result, ok, err, Bytes,
}
use cdrrs.Model.Position.{Positions}
use cdrrs.Model.Item.{SipCache, sip_status_invite_200_ok, sip_status_bye_200_ok}
use cdrrs.Model.Cdr.{VoipCdr, ParseTime, new_cdr, new_expired_cdr}
use cdrrs.Service.Todo.{Todo, lookup, insert, delete, sip_item_keys}

-- What the records are made with; the pooled record is whatever `cdrPool` gives.
pub record Env : Type 0 where
  pub parse_time : ParseTime
  pub positions : Positions
  pub pooled : VoipCdr

-- `log.Panicf` and `log.Fatalf`.
pub data Crash : Type 0 where
  panic fatal : Crash

infixl 5 ◌>>=◌
abbrev pub ◌>>=◌ : {A B : Type 0} → Result Crash A → (A → Result Crash B) → Result Crash B
ok a >>= f = f a
err e >>= f = err e

-- `if c := …; c != nil { Collect(c) }`: the records sent.
abbrev pub collect : Option VoipCdr → List VoipCdr
collect none = []
collect (some c) = c ∷ []

-- The record of an INVITE's half, ended by a BYE's; `a.DisconnectTime` is written to the half that
-- the callers free.
unfoldable pub pair : Env → SipCache → SipCache → List VoipCdr
pair env invite bye = collect (
    new_cdr env.parse_time env.positions env.pooled invite.call_id
      (record invite { disconnect_time = bye.disconnect_time }))

unfoldable pub synthesize : Env → SipCache → SipCache → Result Crash (Bool × List VoipCdr)
unfolding pair
synthesize env a b =
    if a.kind == sip_status_invite_200_ok && b.kind == sip_status_bye_200_ok
    then (if not (equal a.call_id b.call_id) then err panic else ok (true, pair env a b))
    else if a.kind == sip_status_bye_200_ok && b.kind == sip_status_invite_200_ok
    then (if not (equal a.call_id b.call_id) then err panic else ok (true, pair env b a))
    else ok (false, [])

-- The map and the records sent.
abbrev pub Appended : Type 0
Appended = Todo × List VoipCdr

append_to : Env → Todo → SipCache → SipCache → Result Crash Appended
append_to env todo item val = if not (equal val.call_id item.call_id) then err fatal else do
  (done, cdrs) ← synthesize env val item
  ok (if done then delete val.call_id todo else todo, cdrs)

unfoldable pub append : Env → Todo → SipCache → Result Crash Appended
unfolding append_to
append env todo item = elim (lookup item.call_id todo) [
  | some val ↦ append_to env todo item val
  | none ↦ ok (insert item.call_id item todo, [])
]

-- The result of the loop over the items that were queried: what stays in the map, the records
-- sent, and the keys to delete from the cache.
pub record Tried : Type 0 where
  pub todo : Todo
  pub cdrs : List VoipCdr
  pub queried_keys : List Bytes

-- One entry whose key was found in the cache, before the entries behind it.
try_found : Env → SipCache → SipCache → Result Crash Tried → Result Crash Tried
try_found env v found rest = do
  (done, cdrs) ← synthesize env v found
  t ← rest
  ok (record t {
    cdrs = cdrs ++ t.cdrs;
    queried_keys = if done then v.call_id ∷ t.queried_keys else t.queried_keys;
  })

unfoldable pub try_all : Env → (Bytes → Option SipCache) → Todo → Result Crash Tried
unfolding try_found
try_all env all_queried [] = ok (record { todo = []; cdrs = []; queried_keys = [] })
try_all env all_queried ((k, v) ∷ m) =
    let rest = try_all env all_queried m in
    elim (all_queried k) [
      | none ↦ (do t ← rest; ok (record t { todo = (k, v) ∷ t.todo }))
      | some found ↦ try_found env v found rest
    ]
