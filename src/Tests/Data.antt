-- ===== src/Tests/Data.antt =====
-- A call, as the tests use it.
use cdrrs.Base.{[], ◌∷◌, Option, none, some, ℤ, pos, codes, equal, if◌then◌else◌, Bytes}
use cdrrs.Sip.RequestLine.{SipReq}
use cdrrs.Sip.To.{SipTo}
use cdrrs.Sip.From.{SipFrom}
use cdrrs.Sip.Contact.{SipContact}
use cdrrs.Sip.Cseq.{SipCseq}
use cdrrs.Sip.Sdp.{SdpMediaDesc, SdpConnData, SdpAttrib}
use cdrrs.Sip.Address.{Address}
use cdrrs.Sip.Message.{SipMsg, SipVal}
use cdrrs.Model.Position.{Positions, PhonePosition}
use cdrrs.Model.Packet.{SipPacket}
use cdrrs.Model.Packet.Accepted.{Call, print_call}
use cdrrs.Model.Row.RoundTrip.{Row}
use cdrrs.Model.Item.{SipCache, empty_sip_item, sip_status_invite_200_ok, sip_status_bye_200_ok}
use cdrrs.Model.Cdr.{empty_cdr}
use cdrrs.Service.Synth.{Env}

abbrev pub no_req : SipReq
no_req = record {
  method = [];
  uri_type = [];
  status_code = [];
  status_desc = [];
  user = [];
  host = [];
  port = [];
  user_type = [];
  src = [];
}

abbrev pub no_to : SipTo
no_to = record {
  uri_type = [];
  name = [];
  user = [];
  host = [];
  port = [];
  tag = [];
  user_type = [];
  src = [];
}

abbrev pub no_from : SipFrom
no_from = record {
  uri_type = [];
  name = [];
  user = [];
  host = [];
  port = [];
  tag = [];
  user_type = [];
  src = [];
}

abbrev pub no_contact : SipContact
no_contact = record {
  uri_type = [];
  name = [];
  user = [];
  host = [];
  port = [];
  tran = [];
  qval = [];
  expires = [];
  src = [];
}

abbrev pub no_cseq : SipCseq
no_cseq = record { id = []; method = []; src = [] }

abbrev pub no_val : SipVal
no_val = record { value = []; src = [] }

abbrev pub no_media : SdpMediaDesc
no_media = record { media_type = []; port = []; proto = []; fmt = []; src = [] }

abbrev pub no_conn : SdpConnData
no_conn = record { addr_type = []; conn_addr = []; src = [] }

abbrev pub no_attrib : SdpAttrib
no_attrib = record { cat = []; val = []; src = [] }

-- `new(SipMsg)`.
abbrev pub fresh : SipMsg
fresh = record {
  req = no_req;
  from = no_from;
  to = no_to;
  contact = no_contact;
  via = [];
  cseq = no_cseq;
  ua = no_val;
  exp = no_val;
  max_fwd = no_val;
  call_id = no_val;
  cont_type = no_val;
  cont_len = no_val;
  sdp = record { media_desc = no_media; attrib = []; conn_data = no_conn };
}

abbrev pub caller : Address
caller = record {
  name = codes "A";
  user = codes "1001";
  host = codes "10.0.0.1";
  port = codes "5060";
  tag = codes "x1";
}

abbrev pub callee : Address
callee = record {
  name = codes "B";
  user = codes "8613912345678";
  host = codes "10.0.0.2";
  port = codes "5060";
  tag = codes "y2";
}

abbrev pub call : Call
call = record {
  from = caller;
  to = callee;
  call_id = codes "c-1";
  cseq_id = codes "1";
  method = codes "INVITE";
  user_agent = codes "phone";
  body = [] ∷ codes "v=0" ∷ [];
}

abbrev pub row : Row
row = record {
  event_time = codes "20201201080000";
  event_id = codes "7";
  saddr_v4 = codes "10.0.0.1";
  sport = codes "5060";
  daddr_v4 = codes "10.0.0.2";
  dport = codes "5061";
  param_content = print_call call;
}

-- The line of the data file for `row`: the line breaks of the content are written out, and the
-- quotes around the names are doubled.
abbrev pub line : Bytes
line =
    codes
      "\"20201201080000\",\"7\",\"10.0.0.1\",\"5060\",\"10.0.0.2\",\"5061\",\"SIP/2.0 200 OK\\0D\\0AFrom: \"\"A\"\" <sip:1001@10.0.0.1:5060>;tag=x1\\0D\\0ATo: \"\"B\"\" <sip:8613912345678@10.0.0.2:5060>;tag=y2\\0D\\0ACall-ID: c-1\\0D\\0ACSeq: 1 INVITE\\0D\\0AUser-Agent: phone\\0D\\0A\\0D\\0Av=0\""

-- The end of the call, 90 seconds later.
abbrev pub bye_call : Call
bye_call = record call { cseq_id = codes "2"; method = codes "BYE" }

abbrev pub bye_row : Row
bye_row = record row { event_time = codes "20201201080130"; param_content = print_call bye_call }

abbrev pub bye_line : Bytes
bye_line =
    codes
      "\"20201201080130\",\"7\",\"10.0.0.1\",\"5060\",\"10.0.0.2\",\"5061\",\"SIP/2.0 200 OK\\0D\\0AFrom: \"\"A\"\" <sip:1001@10.0.0.1:5060>;tag=x1\\0D\\0ATo: \"\"B\"\" <sip:8613912345678@10.0.0.2:5060>;tag=y2\\0D\\0ACall-ID: c-1\\0D\\0ACSeq: 2 BYE\\0D\\0AUser-Agent: phone\\0D\\0A\\0D\\0Av=0\""

abbrev pub beijing : PhonePosition
beijing = record { phone = []; province = codes "BJ"; city = codes "BJ"; code1 = codes "010" }

-- One mobile prefix and one area are known.
abbrev pub positions : Positions
positions = record {
  fixed = λ k. if equal k (codes "010") then some beijing else none;
  mobile = λ k. if equal k (codes "1391234") then some beijing else none;
}

abbrev pub no_packet : SipPacket
no_packet = record {
  event_time = [];
  sip = [];
  sport = pos 0;
  dip = [];
  dport = pos 0;
  call_id = [];
  cseq_method = [];
  req_status_code = pos 0;
  from_user = [];
  to_user = [];
  user_agent = [];
}

-- Two times are well-formed.
abbrev pub parse_time : Bytes → Option ℤ
parse_time s =
    if equal s (codes "20201201080000")
    then some (pos 1606780800)
    else if equal s (codes "20201201080130")
    then some (pos 1606780890)
    else none

abbrev pub env : Env
env = record { parse_time = parse_time; positions = positions; pooled = empty_cdr }

abbrev pub invite : SipCache
invite = record empty_sip_item {
  kind = sip_status_invite_200_ok;
  call_id = codes "c-1";
  caller = codes "1001";
  callee = codes "13912345678";
  src_ip = codes "10.0.0.1";
  dest_ip = codes "10.0.0.2";
  src_port = 5060;
  dest_port = 5061;
  callee_device = codes "phone";
  connect_time = codes "20201201080000";
}

abbrev pub bye : SipCache
bye = record empty_sip_item {
  kind = sip_status_bye_200_ok;
  call_id = codes "c-1";
  caller = codes "1001";
  callee = codes "13912345678";
  src_ip = codes "10.0.0.1";
  dest_ip = codes "10.0.0.2";
  src_port = 5060;
  dest_port = 5061;
  disconnect_time = codes "20201201080130";
}
