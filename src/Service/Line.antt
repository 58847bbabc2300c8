-- ===== src/Service/Line.antt =====
-- `DoLine` of service/serve.go: a line of a file becomes the half of a call, which `Input` hands to
-- the synthesizer.
pub mod Halves
pub mod Restored
use cdrrs.Base.{
  ℕ, Bool, false, ◌&&◌, [], Option, none, some, ℤ, pos, negsuc, ◌==◌, if◌then◌else◌, equal,
  is_empty, codes, Result, ok, Bytes,
}
use cdrrs.Sip.Message.{SipMsg}
use cdrrs.Model.Position.{Positions}
use cdrrs.Model.Packet.{SipPacket, Outcome, parse_sip_packet}
use cdrrs.Model.Item.{
  SipCache, sip_status_invite_200_ok, sip_status_bye_200_ok, new_sip_item_from_sip_packet,
}
use cdrrs.Service.Todo.{Todo}
use cdrrs.Service.Synth.{Env, Crash, Appended, append}

-- `var sip model.SipPacket`.
abbrev pub zero_packet : SipPacket
zero_packet = record {
  event_time = [];
  sip = [];
  sport = pos 0;
  dip = [];
  dport = pos 0;
  call_id = [];
  cseq_method = [];
  req_status_code = pos 0;
  from_user = [];
  to_user = [];
  user_agent = [];
}

abbrev pub is_200 : ℤ → Bool
is_200 (pos n) = n == 200
is_200 (negsuc n) = false

-- What a packet gives the synthesizer; `none` is no input.
unfoldable pub item_of : SipCache → SipPacket → Option SipCache
unfolding new_sip_item_from_sip_packet
item_of pooled sip =
    if equal sip.cseq_method (codes "INVITE") && is_200 sip.req_status_code
    then some (record (new_sip_item_from_sip_packet pooled sip) {
      kind = sip_status_invite_200_ok;
      callee_device = sip.user_agent;
      connect_time = sip.event_time;
    })
    else if equal sip.cseq_method (codes "BYE") && is_200 sip.req_status_code
    then some (record (new_sip_item_from_sip_packet pooled sip) {
      kind = sip_status_bye_200_ok;
      disconnect_time = sip.event_time;
    })
    else none

-- A packet that is refused is dropped.
unfoldable pub item_of_outcome : SipCache → Outcome → Option SipCache
unfolding item_of
item_of_outcome pooled (none, sip) = item_of pooled sip
item_of_outcome pooled (some e, sip) = none

-- The pooled message and item are whatever the pools give.
unfoldable pub do_line : Positions → SipMsg → SipCache → Bytes → Option SipCache
unfolding item_of_outcome
do_line ps message pooled line =
    item_of_outcome pooled (parse_sip_packet ps message line zero_packet)

-- A line on its way through `DoLine`, `Input` and the check of `realTimeSynth` to `append`.
handle : Env → Todo → Option SipCache → Result Crash Appended
handle env todo none = ok (todo, [])
handle env todo (some item) = if is_empty item.call_id then ok (todo, []) else append env todo item

unfoldable pub handle_line : Env → SipMsg → SipCache → Todo → Bytes → Result Crash Appended
unfolding handle
handle_line env message pooled todo line =
    handle env todo (do_line env.positions message pooled line)
