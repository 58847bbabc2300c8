-- ===== src/Service/Synth/Pairs.antt =====
-- Two halves of a call in the map of the synthesizer.
use cdrrs.Base.{
  ◌≡◌, refl, sym, ◌∙◌, true, false, ◌&&◌, Bool, List, [], none, some, ◌==◌, equal_iff, ok,
  if◌then◌else◌, arith,
}
use cdrrs.Model.Item.{SipCache, sip_status_invite_200_ok, sip_status_bye_200_ok}
use cdrrs.Model.Cdr.{VoipCdr}
use cdrrs.Service.Todo.{Todo, lookup, insert, delete}
use cdrrs.Service.Todo.Keys.{IsKeyed, lookup-insert, delete-insert, lookup-IsKeyed}
use cdrrs.Service.Synth.{Env, ◌>>=◌, pair, synthesize, Appended, append}

-- The order in which the halves meet makes no difference, neither to the record nor to a crash.
pub synthesize_comm : (env : Env) (a b : SipCache) → synthesize env a b ≡ synthesize env b a
unfolding synthesize
synthesize_comm env a b =
    ground (arith, equal_iff a.call_id b.call_id, equal_iff b.call_id a.call_id)

-- What two halves of one call give: whether they match, and the records sent.
pub paired : Env → SipCache → SipCache → Bool × List VoipCdr
paired env a b =
    if a.kind == sip_status_invite_200_ok && b.kind == sip_status_bye_200_ok
    then (true, pair env a b)
    else if a.kind == sip_status_bye_200_ok && b.kind == sip_status_invite_200_ok
    then (true, pair env b a)
    else (false, [])

-- Halves that do not match give no record.
pub paired-nil : (env : Env) (a b : SipCache) → (paired env a b).0 ≡ false → (paired env a b).1 ≡ []
unfolding paired
paired-nil env a b e = ground arith

-- Halves of one call do not crash.
pub synthesize-paired :
    (env : Env) (a b : SipCache) → a.call_id ≡ b.call_id → synthesize env a b ≡ ok (paired env a b)
unfolding synthesize paired
synthesize-paired env a b h =
    ground (arith, equal_iff a.call_id b.call_id, equal_iff b.call_id a.call_id)

pub append_missing :
    (env : Env) (todo : Todo) (item : SipCache)
    → lookup item.call_id todo ≡ none
    → append env todo item ≡ ok (insert item.call_id item todo, [])
unfolding append
append_missing env todo item h = rw (h, append) refl

pub append_found :
    (env : Env) (todo : Todo) (item val : SipCache)
    → lookup item.call_id todo ≡ some val
    → val.call_id ≡ item.call_id
    → append env todo item
      ≡ ok (
        if (paired env val item).0 then delete val.call_id todo else todo,
        (paired env val item).1,
      )
unfolding append
append_found env todo item val h e =
    rw (h, append)
      (rw (synthesize-paired env val item e, (equal_iff val.call_id item.call_id).1 e) refl)

module _ (env : Env) (invite bye : SipCache) (hi : invite.kind ≡ sip_status_invite_200_ok)
    (hb : bye.kind ≡ sip_status_bye_200_ok) where
  paired-invite : paired env invite bye ≡ (true, pair env invite bye)
  unfolding paired
  paired-invite = rw (hi, hb) refl

  paired-bye : paired env bye invite ≡ (true, pair env invite bye)
  unfolding paired
  paired-bye = rw (hi, hb) refl

-- The halves of a call that the map does not hold arrive in either order: the first waits and sends
-- nothing, and the second leaves the map as it was and sends what the INVITE's half gives with the
-- BYE's, the same in both orders.
pub append-pair :
    (env : Env) (todo : Todo) (invite bye : SipCache)
    → invite.kind ≡ sip_status_invite_200_ok
    → bye.kind ≡ sip_status_bye_200_ok
    → invite.call_id ≡ bye.call_id
    → lookup invite.call_id todo ≡ none
    → (append env todo invite >>= (λ (r : Appended). append env r.0 bye))
        ≡ ok (todo, pair env invite bye)
      × (append env todo bye >>= (λ (r : Appended). append env r.0 invite))
        ≡ ok (todo, pair env invite bye)
append-pair env todo invite bye hi hb hc hn = (
  both invite bye hc hn (paired-invite env invite bye hi hb),
  both bye invite (sym hc) (rw (← hc) hn) (paired-bye env invite bye hi hb),
)
  where
    held :
        (a b : SipCache)
        → a.call_id ≡ b.call_id
        → lookup b.call_id (insert a.call_id a todo) ≡ some a
    held a b e =
        lookup-insert a.call_id b.call_id a todo ∙ rw ((equal_iff a.call_id b.call_id).1 e) refl

    both :
        (a b : SipCache)
        → a.call_id ≡ b.call_id
        → lookup a.call_id todo ≡ none
        → paired env a b ≡ (true, pair env invite bye)
        → (append env todo a >>= (λ (r : Appended). append env r.0 b))
          ≡ ok (todo, pair env invite bye)
    both a b e n p = rw (append_missing env todo a n) (
        rw (append_found env (insert a.call_id a todo) b a (held a b e) e)
          (rw p (rw (delete-insert a.call_id a todo n) refl)))

-- A second half of the same kind, such as one sent again, changes nothing and sends nothing.
pub append_again :
    (env : Env) (todo : Todo) (item val : SipCache)
    → IsKeyed todo
    → lookup item.call_id todo ≡ some val
    → val.kind ≡ item.kind
    → append env todo item ≡ ok (todo, [])
unfolding paired
append_again env todo item val keyed h k =
    append_found env todo item val h (lookup-IsKeyed item.call_id val todo keyed h) ∙ ground arith
