-- ===== src/Service/Line/Halves.antt =====
-- Whatever a line of a file holds, what `DoLine` makes of it is well-formed.
use cdrrs.Base.{
  ◌≡◌, refl, ◌≢◌, false, true, Bool, ◌||◌, ◌&&◌, [], ◌∷◌, List, Option, ℤ, none, some, is_empty,
  codes, Bytes, inl, inr, ◌⊎◌, if◌then◌else◌, equal, arith,
}
use mathlib.Core.Path.{subst}
use cdrrs.Sip.Message.{SipMsg}
use cdrrs.Model.Position.{Positions}
use cdrrs.Model.Number.{extract_legal_number}
use cdrrs.Model.Number.Resolves.{Resolves, extract_legal_number-Resolves}
use cdrrs.Model.Row.{PacketError, pretreatment, split}
use cdrrs.Model.Packet.{
  SipPacket, Outcome, convert_numbers, check_packet, parse_fields, parse_sip_packet,
}
use cdrrs.Model.Item.{SipCache, sip_status_invite_200_ok, sip_status_bye_200_ok}
use cdrrs.Service.Line.{zero_packet, is_200, item_of, item_of_outcome, do_line}

-- A packet that is not refused has a Call-ID, and its called number resolves.
Sound : Positions → Outcome → Type 0
Sound ps (some e, pkt) = Unit
Sound ps (none, pkt) = (is_empty pkt.call_id ≡ false) × Resolves ps pkt.to_user

refused : (ps : Positions) (e : PacketError) (pkt : SipPacket) → Sound ps (some e, pkt)
unfolding Sound
refused ps e pkt = tt

-- A refusal in front of the rest.
Sound-if :
    (ps : Positions) (b : Bool) (e : PacketError) (pkt : SipPacket) (y : Outcome)
    → (b ≡ false → Sound ps y)
    → Sound ps (if b then (some e, pkt) else y)
Sound-if ps true e pkt y k = refused ps e pkt
Sound-if ps false e pkt y k = k refl

convert_numbers-Sound :
    (ps : Positions) (sport dport code : Bytes) (pkt : SipPacket)
    → ((s d c : ℤ) → Sound ps (none, record pkt { sport = s; dport = d; req_status_code = c }))
    → Sound ps (convert_numbers sport dport code pkt)
unfolding convert_numbers
convert_numbers-Sound ps sport dport code pkt h = search (Sound-if, h)

not_nil : {s : Bytes} → is_empty s ≡ false → s ≢ []
not_nil {s} e n = cc

accepted :
    (ps : Positions) (pkt : SipPacket)
    → (is_empty pkt.call_id || is_empty pkt.cseq_method || is_empty pkt.to_user) ≡ false
    → is_empty (extract_legal_number ps pkt.to_user) ≡ false
    → (s d c : ℤ)
    → Sound ps (
      none,
      record pkt {
        to_user = extract_legal_number ps pkt.to_user;
        sport = s;
        dport = d;
        req_status_code = c;
      },
    )
unfolding Sound
accepted ps pkt e n s d c = (ground arith, extract_legal_number-Resolves ps pkt.to_user (not_nil n))

check_packet-Sound :
    (ps : Positions) (sport dport code : Bytes) (pkt : SipPacket)
    → Sound ps (check_packet ps sport dport code pkt)
unfolding check_packet
check_packet-Sound ps sport dport code pkt = search (Sound-if, convert_numbers-Sound, accepted)

parse_fields-Sound :
    (ps : Positions) (pooled : SipMsg) (ss : List Bytes) (pkt : SipPacket)
    → Sound ps (parse_fields ps pooled ss pkt)
unfolding parse_fields
parse_fields-Sound ps pooled (time ∷ id ∷ saddr ∷ sport ∷ daddr ∷ dport ∷ content ∷ ss) pkt =
    search (Sound-if, check_packet-Sound)
parse_fields-Sound ps pooled _ pkt = refused ps _ _

-- Whatever the line, the pooled message and the packet hold: a packet that is not refused has a
-- Call-ID, and its called number resolves.
parse_sip_packet-Sound :
    (ps : Positions) (pooled : SipMsg) (line : Bytes) (pkt : SipPacket)
    → Sound ps (parse_sip_packet ps pooled line pkt)
unfolding parse_sip_packet
parse_sip_packet-Sound ps pooled line pkt =
    parse_fields-Sound ps pooled (split (pretreatment line)) pkt

-- The half of a call: an INVITE's, with no time of its end, or a BYE's, with none of its start.
pub record IsHalf (ps : Positions) (item : SipCache) : Type 0 where
  pub id_any : is_empty item.call_id ≡ false
  pub callee_is : Resolves ps item.callee
  pub kind_is :
      ((item.kind ≡ sip_status_invite_200_ok) × (item.disconnect_time ≡ []))
      ⊎ ((item.kind ≡ sip_status_bye_200_ok) × (item.connect_time ≡ []))

AllHalf : Positions → Option SipCache → Type 0
AllHalf ps none = Unit
AllHalf ps (some item) = IsHalf ps item

half_if :
    (ps : Positions) (b : Bool) (x : SipCache) (y : Option SipCache)
    → IsHalf ps x
    → AllHalf ps y
    → AllHalf ps (if b then some x else y)
unfolding AllHalf
half_if ps true x y h k = h
half_if ps false x y h k = k

nothing : (ps : Positions) → AllHalf ps none
unfolding AllHalf
nothing ps = tt

item_of_outcome-AllHalf :
    (ps : Positions) (pooled : SipCache) (o : Outcome)
    → Sound ps o
    → AllHalf ps (item_of_outcome pooled o)
unfolding item_of_outcome item_of Sound AllHalf
item_of_outcome-AllHalf ps pooled (some e, sip) h = tt
item_of_outcome-AllHalf ps pooled (none, sip) h =
    half_if ps (equal sip.cseq_method (codes "INVITE") && is_200 sip.req_status_code) _ _
      (record { id_any = h.0; callee_is = h.1; kind_is = inl (refl, refl) })
      (half_if ps (equal sip.cseq_method (codes "BYE") && is_200 sip.req_status_code) _ _
        (record { id_any = h.0; callee_is = h.1; kind_is = inr (refl, refl) }) tt)

-- Whatever the line, the pooled message and the pooled item hold: an item that the line gives has a
-- Call-ID and a called number that resolves, and is an INVITE's half with no time of the end or a
-- BYE's with none of the start.
pub do_line-IsHalf :
    (ps : Positions) (message : SipMsg) (pooled : SipCache) (line : Bytes) (item : SipCache)
    → do_line ps message pooled line ≡ some item
    → IsHalf ps item
unfolding do_line AllHalf
do_line-IsHalf ps message pooled line item e =
    subst (AllHalf ps) e
      (item_of_outcome-AllHalf ps pooled _ (parse_sip_packet-Sound ps message line zero_packet))
