-- ===== src/Service/Line/Restored.antt =====
-- The two lines of a call become its record.
use cdrrs.Base.{
  ◌≡◌, refl, ◌∙◌, ◌≢◌, false, [], ◌∷◌, none, some, ℤ, pos, ◌-ℤ◌, is_empty, codes, Result, ok, err,
  Bytes, uint16,
}
use cdrrs.Sip.Message.{SipMsg}
use cdrrs.Model.Position.{Positions}
use cdrrs.Model.Number.{extract_legal_number}
use cdrrs.Model.Number.Resolves.{extract_legal_number-Resolves}
use cdrrs.Model.Row.{pretreatment}
use cdrrs.Model.Row.RoundTrip.{Row, print_row, IsRow}
use cdrrs.Model.Atoi.{atoi}
use cdrrs.Model.Packet.{SipPacket}
use cdrrs.Model.Packet.Accepted.{Call, IsCall, print_call, parse_sip_packet-print_row}
use cdrrs.Model.Item.{SipCache, empty_sip_item, sip_status_invite_200_ok, sip_status_bye_200_ok}
use cdrrs.Model.Cdr.{VoipCdr}
use cdrrs.Model.Cdr.Duration.{new_cdr_complete}
use cdrrs.Service.Todo.{Todo, lookup}
use cdrrs.Service.Synth.{Env, Crash, ◌>>=◌, Appended, append, pair}
use cdrrs.Service.Synth.Pairs.{append-pair}
use cdrrs.Service.Line.{item_of, do_line, handle_line}

-- A line of a file, the row that it is treated to, and the call of the row's message.
pub record Sent : Type 0 where
  pub line : Bytes
  pub row : Row
  pub call : Call
  pub sport : ℤ
  pub dport : ℤ

-- The line can be read back: the called number is legal and the ports are numbers.
pub record IsSent (ps : Positions) (s : Sent) : Type 0 where
  pub treated : pretreatment s.line ≡ print_row s.row
  pub row_is : IsRow s.row
  pub content_is : s.row.param_content ≡ print_call s.call
  pub call_is : IsCall s.call
  pub legal : is_empty (extract_legal_number ps s.call.to.user) ≡ false
  pub sport_is : atoi s.row.sport (pos 0) ≡ (s.sport, false)
  pub dport_is : atoi s.row.dport (pos 0) ≡ (s.dport, false)

-- The packet of the line.
abbrev pub packet : Positions → Sent → SipPacket
packet ps s = record {
  event_time = s.row.event_time;
  sip = s.row.saddr_v4;
  sport = s.sport;
  dip = s.row.daddr_v4;
  dport = s.dport;
  call_id = s.call.call_id;
  cseq_method = s.call.method;
  req_status_code = pos 200;
  from_user = s.call.from.user;
  to_user = extract_legal_number ps s.call.to.user;
  user_agent = s.call.user_agent;
}

pub do_line-packet :
    (ps : Positions) (message : SipMsg) (pooled : SipCache) (s : Sent)
    → IsSent ps s
    → do_line ps message pooled s.line ≡ item_of pooled (packet ps s)
unfolding do_line
do_line-packet ps message pooled s h =
    rw
      (parse_sip_packet-print_row ps message s.line _ s.row s.call s.sport s.dport h.treated
        h.row_is h.content_is h.call_is h.legal h.sport_is h.dport_is)
      refl

-- The half of the call that the line gives: what both kinds have.
abbrev pub half : Positions → Sent → SipCache
half ps s = record empty_sip_item {
  call_id = s.call.call_id;
  caller = s.call.from.user;
  callee = extract_legal_number ps s.call.to.user;
  src_ip = s.row.saddr_v4;
  dest_ip = s.row.daddr_v4;
  src_port = uint16 s.sport;
  dest_port = uint16 s.dport;
}

abbrev pub invite_half : Positions → Sent → SipCache
invite_half ps s = record (half ps s) {
  kind = sip_status_invite_200_ok;
  callee_device = s.call.user_agent;
  connect_time = s.row.event_time;
}

abbrev pub bye_half : Positions → Sent → SipCache
bye_half ps s = record (half ps s) {
  kind = sip_status_bye_200_ok;
  disconnect_time = s.row.event_time;
}

pub do_line-invite :
    (ps : Positions) (message : SipMsg) (pooled : SipCache) (s : Sent)
    → IsSent ps s
    → s.call.method ≡ codes "INVITE"
    → do_line ps message pooled s.line ≡ some (invite_half ps s)
unfolding item_of
do_line-invite ps message pooled s h m = do_line-packet ps message pooled s h ∙ rw m refl

pub do_line-bye :
    (ps : Positions) (message : SipMsg) (pooled : SipCache) (s : Sent)
    → IsSent ps s
    → s.call.method ≡ codes "BYE"
    → do_line ps message pooled s.line ≡ some (bye_half ps s)
unfolding item_of
do_line-bye ps message pooled s h m = do_line-packet ps message pooled s h ∙ rw m refl

-- A half with a Call-ID goes to `append`.
handle_line-append :
    (env : Env) (message : SipMsg) (pooled : SipCache) (todo : Todo) (line : Bytes)
    (item : SipCache)
    → do_line env.positions message pooled line ≡ some item
    → is_empty item.call_id ≡ false
    → handle_line env message pooled todo line ≡ append env todo item
unfolding handle_line
handle_line-append env message pooled todo line item e h = rw e (rw h refl)

bind_agree :
    (m : Result Crash Appended) (n : Result Crash Appended) (f g : Appended → Result Crash Appended)
    → m ≡ n
    → ((a : Appended) → f a ≡ g a)
    → (m >>= f) ≡ (n >>= g)
bind_agree m (ok a) f g e h = rw e (h a)
bind_agree m (err c) f g e h = rw e refl

-- The lines of an INVITE's and a BYE's 200 OK for one call, of which the map holds nothing, that can
-- be read back, with times that are not empty and parse: in either order they leave the map as it was and send one record, with the times of the lines as
-- they parse and their difference, the calling user and the called number that is extracted from
-- the INVITE's, and the addresses of its row, whatever the pools gave.
pub handle_line-restored :
    (env : Env) (todo : Todo) (m n : SipMsg) (p q : SipCache) (invite bye : Sent) (c d : ℤ)
    → IsSent env.positions invite
    → IsSent env.positions bye
    → invite.call.method ≡ codes "INVITE"
    → bye.call.method ≡ codes "BYE"
    → invite.call.call_id ≡ bye.call.call_id
    → lookup invite.call.call_id todo ≡ none
    → is_empty invite.row.event_time ≡ false
    → is_empty bye.row.event_time ≡ false
    → env.parse_time invite.row.event_time ≡ some c
    → env.parse_time bye.row.event_time ≡ some d
    → (cdr : VoipCdr) × ((handle_line env m p todo invite.line
          >>= (λ (r : Appended). handle_line env n q r.0 bye.line))
        ≡ ok (todo, cdr ∷ []))
      × ((handle_line env n q todo bye.line
            >>= (λ (r : Appended). handle_line env m p r.0 invite.line))
          ≡ ok (todo, cdr ∷ []))
      × (cdr.connect_time ≡ c)
      × (cdr.disconnect_time ≡ d)
      × (cdr.duration ≡ d -ℤ c)
      × (cdr.caller_num ≡ invite.call.from.user)
      × (cdr.callee_num ≡ extract_legal_number env.positions invite.call.to.user)
      × (cdr.caller_ip ≡ invite.row.saddr_v4)
      × (cdr.callee_ip ≡ invite.row.daddr_v4)
unfolding pair
handle_line-restored env todo m n p q invite bye c d hi hb mi mb same fresh ti tb pc pd =
    let ps = env.positions in
    let a = invite_half ps invite in
    let b = bye_half ps bye in
    let ha = λ (t : Todo).
      handle_line-append env m p t invite.line a (do_line-invite ps m p invite hi mi)
        hi.call_is.id_any in
    let hb' = λ (t : Todo).
      handle_line-append env n q t bye.line b (do_line-bye ps n q bye hb mb) hb.call_is.id_any in
    let (first, second) = append-pair env todo a b refl refl same fresh in
    let (cdr, made, at_c, at_d, long, from, to, src, dest, device, no_id) =
      new_cdr_complete env.parse_time ps env.pooled a.call_id
        (record a { disconnect_time = b.disconnect_time }) c d
        (extract_legal_number-Resolves ps invite.call.to.user (not_nil hi.legal)) ti tb pc pd in
    (
      cdr,
      bind_agree _ _ _ _ (ha todo) (λ r. hb' r.0) ∙ first ∙ rw made refl,
      bind_agree _ _ _ _ (hb' todo) (λ r. ha r.0) ∙ second ∙ rw made refl,
      at_c,
      at_d,
      long,
      from,
      to,
      src,
      dest,
    )
  where
    not_nil : {s : Bytes} → is_empty s ≡ false → s ≢ []
    not_nil {s} e n = cc
