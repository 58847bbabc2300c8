-- ===== src/Model/Packet.antt =====
-- `SipPacket` and `ParseSipPacket` of model/sippkt.go.
pub mod Accepted
use cdrrs.Base.{
  ℕ, ◌||◌, Bool, true, false, not, List, [], ◌∷◌, Option, none, some, ℤ, pos, if◌then◌else◌,
  is_empty, Bytes,
}
use cdrrs.Bytes.{has_prefix}
use cdrrs.Sip.Message.{SipMsg}
use cdrrs.Sip.Message
use cdrrs.Model.Position.{Positions}
use cdrrs.Model.Number.{extract_legal_number}
use cdrrs.Model.Row.{
  PacketError, invalid_raw_text_data, invalid_sip_packet, split, pretreatment,
  sip_status_200_ok_prefix,
}
use cdrrs.Model.Atoi.{atoi}

pub record SipPacket : Type 0 where
  pub event_time : Bytes
  pub sip : Bytes
  pub sport : ℤ
  pub dip : Bytes
  pub dport : ℤ
  pub call_id : Bytes
  pub cseq_method : Bytes
  pub req_status_code : ℤ
  pub from_user : Bytes
  pub to_user : Bytes
  pub user_agent : Bytes

-- The error of the call and the packet as it leaves it.
abbrev pub Outcome : Type 0
Outcome = Option PacketError × SipPacket

-- The three numbers, each assigned before its error is looked at.
unfoldable pub convert_numbers : Bytes → Bytes → Bytes → SipPacket → Outcome
convert_numbers sport dport code pkt =
    let (s, sport_err) = atoi sport (pos 0) in
    let (d, dport_err) = atoi dport (pos 0) in
    let (c, code_err) = atoi code (pos 0) in
    if sport_err
    then (some invalid_sip_packet, record pkt { sport = s })
    else if dport_err
    then (some invalid_sip_packet, record pkt { sport = s; dport = d })
    else if code_err
    then (some invalid_sip_packet, record pkt { sport = s; dport = d; req_status_code = c })
    else (none, record pkt { sport = s; dport = d; req_status_code = c })

-- From the check of the Call-ID, the method and the called number on.
unfoldable pub check_packet : Positions → Bytes → Bytes → Bytes → SipPacket → Outcome
unfolding convert_numbers
check_packet ps sport dport code pkt =
    if is_empty pkt.call_id || is_empty pkt.cseq_method || is_empty pkt.to_user
    then (some invalid_sip_packet, pkt)
    else let pkt' = record pkt { to_user = extract_legal_number ps pkt.to_user } in
      if is_empty pkt'.to_user
      then (some invalid_sip_packet, pkt')
      else convert_numbers sport dport code pkt'

-- What the row and the message give the packet.
unfoldable pub packet_of : Bytes → Bytes → Bytes → SipMsg → SipPacket
packet_of event_time saddr daddr msg = record {
  event_time = event_time;
  sip = saddr;
  sport = pos 0;
  dip = daddr;
  dport = pos 0;
  call_id = msg.call_id.value;
  cseq_method = msg.cseq.method;
  req_status_code = pos 0;
  from_user = msg.from.user;
  to_user = msg.to.user;
  user_agent = msg.ua.value;
}

-- Behind `split`, on its parts.
unfoldable pub parse_fields : Positions → SipMsg → List Bytes → SipPacket → Outcome
unfolding packet_of check_packet has_prefix
parse_fields ps pooled (time ∷ id ∷ saddr ∷ sport ∷ daddr ∷ dport ∷ content ∷ ss) pkt =
    if not (has_prefix content sip_status_200_ok_prefix)
    then (some invalid_sip_packet, pkt)
    else let msg = Message.parse pooled content in
      check_packet ps sport dport msg.req.status_code (packet_of time saddr daddr msg)
parse_fields ps pooled ss pkt = (some invalid_raw_text_data, pkt)

unfoldable pub parse_sip_packet : Positions → SipMsg → Bytes → SipPacket → Outcome
unfolding parse_fields
parse_sip_packet ps pooled line pkt = parse_fields ps pooled (split (pretreatment line)) pkt
