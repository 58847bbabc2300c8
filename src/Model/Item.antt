-- ===== src/Model/Item.antt =====
-- model/sipcache.go: the cached half of a call, a `SipCache`.
use cdrrs.Base.{ℕ, uint16, [], Bytes}
use cdrrs.Model.Packet.{SipPacket}

abbrev pub sip_request_invite : ℕ
sip_request_invite = 0

abbrev pub sip_request_bye : ℕ
sip_request_bye = 1

abbrev pub sip_status_invite_200_ok : ℕ
sip_status_invite_200_ok = 2

abbrev pub sip_status_bye_200_ok : ℕ
sip_status_bye_200_ok = 3

pub record SipCache : Type 0 where
  pub kind : ℕ
  pub call_id : Bytes
  pub caller : Bytes
  pub callee : Bytes
  pub src_ip : Bytes
  pub dest_ip : Bytes
  pub src_port : ℕ
  pub dest_port : ℕ
  pub caller_device : Bytes
  pub callee_device : Bytes
  pub connect_time : Bytes
  pub disconnect_time : Bytes

-- `emptySipItem`, which `NewSipItem` writes over what the pool gives.
abbrev pub empty_sip_item : SipCache
empty_sip_item = record {
  kind = 0;
  call_id = [];
  caller = [];
  callee = [];
  src_ip = [];
  dest_ip = [];
  src_port = 0;
  dest_port = 0;
  caller_device = [];
  callee_device = [];
  connect_time = [];
  disconnect_time = [];
}

unfoldable pub clear : SipCache → SipCache
clear pkt = empty_sip_item

unfoldable pub new_sip_item : SipCache → SipCache
unfolding clear
new_sip_item pooled = clear pooled

unfoldable pub new_sip_item_from_sip_packet : SipCache → SipPacket → SipCache
unfolding new_sip_item uint16
new_sip_item_from_sip_packet pooled sip = record (new_sip_item pooled) {
  call_id = sip.call_id;
  caller = sip.from_user;
  callee = sip.to_user;
  src_ip = sip.sip;
  dest_ip = sip.dip;
  src_port = uint16 sip.sport;
  dest_port = uint16 sip.dport;
}
