-- ===== src/Tests/Sip.antt =====
-- The SIP parser at concrete inputs.
use cdrrs.Base.{◌≡◌, refl, [], ◌∷◌, codes, arith}
use cdrrs.Bytes.{trim_space}
use cdrrs.Sip.Slices.{index_sep}
use cdrrs.Sip.Fsm.{field_null, field_base, field_id, field_cat, field_media}
use cdrrs.Sip.Fsm.Termination.{Runs}
use cdrrs.Sip.Progress.{parsers_terminate}
use cdrrs.Sip.RequestLine.{step_req, clear_req, parse_sip_req}
use cdrrs.Sip.From.{step_from, clear_from, parse_sip_from}
use cdrrs.Sip.To.{step_to, clear_to, parse_sip_to}
use cdrrs.Sip.Contact.{step_contact, clear_contact, parse_sip_contact}
use cdrrs.Sip.Via.{step_via, clear_via, parse_sip_via}
use cdrrs.Sip.Cseq.{step_cseq, clear_cseq, parse_sip_cseq}
use cdrrs.Sip.Sdp.{
  step_media_desc, clear_media_desc, parse_sdp_media_desc, step_conn_data, clear_conn_data,
  parse_sdp_connection_data, step_attrib, clear_attrib, parse_sdp_attrib,
}
use cdrrs.Sip.Address.{print_address, IsPrintable, parse_sip_to-print_address}
use cdrrs.Sip.Address.From.{as_from, parse_sip_from-parse_sip_to}
use cdrrs.Sip.StartLine.{print_status, parse_sip_req-print_status}
use cdrrs.Sip.StartLine.Request.{RequestUri, print_request, parse_sip_req-print_request}
use cdrrs.Sip.Message
use cdrrs.Sip.Message.Headers.{Header}
use cdrrs.Sip.Message.Whole.{apply_headers, print_message, parse-print_message}
use cdrrs.Tests.Data.{
  fresh, no_req, no_from, no_to, no_contact, no_cseq, no_media, no_conn, no_attrib, caller,
}

caller_is : IsPrintable caller
caller_is = record {
  name_is = ground arith;
  user_is = ground arith;
  host_is = ground arith;
  port_is = ground arith;
  tag_is = ground arith;
}

parse_sip_to-print_address_example : parse_sip_to (print_address caller) no_to ≡ record {
  uri_type = codes "sip";
  name = caller.name;
  user = caller.user;
  host = caller.host;
  port = caller.port;
  tag = caller.tag;
  user_type = [];
  src = print_address caller;
}
parse_sip_to-print_address_example = parse_sip_to-print_address caller no_to caller_is

parse_sip_from-parse_sip_to_example :
    parse_sip_from (codes "<sip:a@b>;user=phone") no_from
    ≡ as_from (parse_sip_to (codes "<sip:a@b>;user=phone") no_to)
parse_sip_from-parse_sip_to_example =
    parse_sip_from-parse_sip_to (codes "<sip:a@b>;user=phone") no_from no_to

-- A description that an earlier use left is kept in front.
parse_sip_req-print_status_example :
    parse_sip_req
      (print_status (codes "200") (codes "OK"))
      (record no_req { status_desc = codes "Old" })
    ≡ record {
      method = [];
      uri_type = [];
      status_code = codes "200";
      status_desc = codes "OldOK";
      user = [];
      host = [];
      port = [];
      user_type = [];
      src = print_status (codes "200") (codes "OK");
    }
parse_sip_req-print_status_example =
    parse_sip_req-print_status (codes "200") (codes "OK")
      (record no_req { status_desc = codes "Old" }) (ground arith) (ground arith)

abbrev request : RequestUri
request = record {
  method = codes "INVITE";
  user = codes "1001";
  host = codes "h";
  port = codes "5060";
  user_type = codes "phone";
}

parse_sip_req-print_request_example : parse_sip_req (print_request request) no_req ≡ record {
  method = request.method;
  uri_type = codes "sip";
  status_code = [];
  status_desc = [];
  user = request.user;
  host = request.host;
  port = request.port;
  user_type = request.user_type;
  src = print_request request;
}
parse_sip_req-print_request_example = parse_sip_req-print_request request no_req (record {
  first = codes "NVITE";
  starts = b'I';
  method_is = refl;
  in_range = refl;
  short = omega arith;
  not_status = refl;
  no_space = ground arith;
  user_is = ground arith;
  host_is = ground arith;
  port_is = ground arith;
  type_is = ground arith;
})

abbrev expires : Header
expires = record { name = codes "Expires"; raw = codes " 60"; value = codes "60" }

parse-print_message_example :
    Message.parse fresh
      (print_message (codes "SIP/2.0 200 OK") (expires ∷ []) ([] ∷ codes "v=0" ∷ []))
    ≡ apply_headers (expires ∷ []) (record fresh {
      req = parse_sip_req (codes "SIP/2.0 200 OK") fresh.req;
      via = [];
      sdp = record fresh.sdp { attrib = [] };
    })
unfolding trim_space index_sep
parse-print_message_example =
    parse-print_message fresh (codes "SIP/2.0 200 OK") (expires ∷ []) ([] ∷ codes "v=0" ∷ [])
      (ground arith) refl
      (
        record { not_empty = omega arith; no_sep = ground arith; line_is = refl; value_is = refl },
        tt,
      )
      (refl, (refl, tt))

parsers_terminate_example :
    Runs step_req
      (codes "a")
      0
      field_null
      (clear_req (codes "a") no_req)
      (parse_sip_req (codes "a") no_req)
    × Runs step_from
        (codes "a")
        0
        field_base
        (clear_from (codes "a") no_from)
        (parse_sip_from (codes "a") no_from)
    × Runs step_to
        (codes "a")
        0
        field_base
        (clear_to (codes "a") no_to)
        (parse_sip_to (codes "a") no_to)
    × Runs step_contact
        (codes "a")
        0
        field_base
        (clear_contact (codes "a") no_contact)
        (parse_sip_contact (codes "a") no_contact)
    × Runs step_via
        (codes "a")
        0
        field_base
        (clear_via (codes "a") Message.tmp_via)
        (parse_sip_via (codes "a") Message.tmp_via)
    × Runs step_cseq
        (codes "a")
        0
        field_id
        (clear_cseq (codes "a") no_cseq)
        (parse_sip_cseq (codes "a") no_cseq)
    × Runs step_media_desc
        (codes "a")
        0
        field_media
        (clear_media_desc (codes "a") no_media)
        (parse_sdp_media_desc (codes "a") no_media)
    × Runs step_conn_data
        (codes "a")
        0
        field_base
        (clear_conn_data (codes "a") no_conn)
        (parse_sdp_connection_data (codes "a") no_conn)
    × Runs step_attrib
        (codes "a")
        0
        field_cat
        (clear_attrib (codes "a") no_attrib)
        (parse_sdp_attrib (codes "a") no_attrib)
parsers_terminate_example =
    parsers_terminate (codes "a") no_req no_from no_to no_contact Message.tmp_via no_cseq no_media
      no_conn no_attrib
