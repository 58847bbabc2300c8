-- ===== src/Model/Packet/Accepted.antt =====
-- The row of a 200 OK message becomes a packet.
use cdrrs.Base.{
  ◌≡◌, refl, ap, true, false, List, [], ◌∷◌, none, ℤ, pos, is_empty, All, codes, Bytes, arith,
}
use cdrrs.Bytes.{has_prefix, to_lower, join, trim_space}
use cdrrs.Bytes.Split.{Without, has_prefix-append}
use cdrrs.Sip.RequestLine.{SipReq, parse_sip_req}
use cdrrs.Sip.From.{parse_sip_from}
use cdrrs.Sip.To.{parse_sip_to}
use cdrrs.Sip.Cseq.{parse_sip_cseq}
use cdrrs.Sip.Address.{Address, print_address, IsPrintable, parse_sip_to-print_address}
use cdrrs.Sip.Address.From.{parse_sip_from-print_address}
use cdrrs.Sip.Transaction.{print_cseq, parse_sip_cseq-print_cseq}
use cdrrs.Sip.StartLine.{print_status, parse_sip_req-print_status}
use cdrrs.Sip.Message
use cdrrs.Sip.Message.{SipMsg, parse_header, crlf}
use cdrrs.Sip.Message.Headers.{Header, IsHeader}
use cdrrs.Sip.Message.Whole.{apply_headers, print_message, AreLines, IsBody, parse-print_message}
use cdrrs.Model.Position.{Positions, validate_number_string}
use cdrrs.Model.Number.{extract_legal_number}
use cdrrs.Model.Row.{pretreatment, sip_status_200_ok_prefix}
use cdrrs.Model.Row.RoundTrip.{Row, print_row, IsRow, split-print_row}
use cdrrs.Model.Atoi.{atoi}
use cdrrs.Model.Packet.{SipPacket, packet_of, check_packet, parse_fields, parse_sip_packet}

-- What a 200 OK message says of a call.
pub record Call : Type 0 where
  pub from : Address
  pub to : Address
  pub call_id : Bytes
  pub cseq_id : Bytes
  pub method : Bytes
  pub user_agent : Bytes
  pub body : List Bytes

abbrev pub header : Bytes → Bytes → Header
header name value = record { name = name; raw = b' ' ∷ value; value = value }

abbrev pub headers_of : Call → List Header
headers_of c =
    header (codes "From") (print_address c.from)
    ∷ header (codes "To") (print_address c.to)
    ∷ header (codes "Call-ID") c.call_id
    ∷ header (codes "CSeq") (print_cseq c.cseq_id c.method)
    ∷ header (codes "User-Agent") c.user_agent
    ∷ []

abbrev pub ok_line : Bytes
ok_line = print_status (codes "200") (codes "OK")

abbrev pub print_call : Call → Bytes
print_call c = print_message ok_line (headers_of c) c.body

pub record IsCall (c : Call) : Type 0 where
  pub from_is : IsPrintable c.from
  pub to_is : IsPrintable c.to
  pub id_any : is_empty c.call_id ≡ false
  pub cseq_is : Without b' ' c.cseq_id
  pub method_any : is_empty c.method ≡ false
  pub headers_are : All IsHeader (headers_of c)
  pub lines_are : AreLines ok_line (headers_of c) c.body
  pub body_is : All IsBody c.body

ok_line_trimmed : trim_space ok_line ≡ ok_line
unfolding trim_space
ok_line_trimmed = refl

-- The five headers, each in its field.
apply-headers_of :
    (c : Call) (m : SipMsg)
    → apply_headers (headers_of c) m ≡ record m {
      from = parse_sip_from (print_address c.from) m.from;
      to = parse_sip_to (print_address c.to) m.to;
      call_id = record m.call_id { value = c.call_id };
      cseq = parse_sip_cseq (print_cseq c.cseq_id c.method) m.cseq;
      ua = record m.ua { value = c.user_agent };
    }
unfolding apply_headers parse_header to_lower
apply-headers_of c m = refl

module _ (pooled : SipMsg) (c : Call) (v : IsCall c) where
  parse-print_call :
      Message.parse pooled (print_call c)
      ≡ apply_headers (headers_of c) (record pooled {
        req = parse_sip_req ok_line pooled.req;
        via = [];
        sdp = record pooled.sdp { attrib = [] };
      })
  parse-print_call =
      parse-print_message pooled ok_line (headers_of c) c.body v.lines_are ok_line_trimmed
        v.headers_are v.body_is

  call_status : (Message.parse pooled (print_call c)).req.status_code ≡ codes "200"
  call_status =
      rw (parse-print_call, apply-headers_of c _)
        (ap (λ (r : SipReq). r.status_code)
          (parse_sip_req-print_status (codes "200") (codes "OK") pooled.req (ground arith)
            (ground arith)))

  call_packet :
      (time saddr daddr : Bytes)
      → packet_of time saddr daddr (Message.parse pooled (print_call c)) ≡ record {
        event_time = time;
        sip = saddr;
        sport = pos 0;
        dip = daddr;
        dport = pos 0;
        call_id = c.call_id;
        cseq_method = c.method;
        req_status_code = pos 0;
        from_user = c.from.user;
        to_user = c.to.user;
        user_agent = c.user_agent;
      }
  unfolding packet_of
  call_packet time saddr daddr =
      rw (parse-print_call, apply-headers_of c _)
        (rw
          (
            parse_sip_from-print_address c.from pooled.from v.from_is,
            parse_sip_to-print_address c.to pooled.to v.to_is,
            parse_sip_cseq-print_cseq c.cseq_id c.method pooled.cseq v.cseq_is,
          )
          refl)

-- The content of the row starts as the filter of the rows wants it.
has_prefix-print_call : (c : Call) → has_prefix (print_call c) sip_status_200_ok_prefix ≡ true
unfolding join
has_prefix-print_call c = has_prefix-append sip_status_200_ok_prefix _

check_packet-ok :
    (ps : Positions) (sport dport code : Bytes) (pkt : SipPacket) (sp dp st : ℤ)
    → is_empty pkt.call_id ≡ false
    → is_empty pkt.cseq_method ≡ false
    → is_empty pkt.to_user ≡ false
    → is_empty (extract_legal_number ps pkt.to_user) ≡ false
    → atoi sport (pos 0) ≡ (sp, false)
    → atoi dport (pos 0) ≡ (dp, false)
    → atoi code (pos 0) ≡ (st, false)
    → check_packet ps sport dport code pkt ≡ (
      none,
      record pkt {
        to_user = extract_legal_number ps pkt.to_user;
        sport = sp;
        dport = dp;
        req_status_code = st;
      },
    )
unfolding check_packet
check_packet-ok ps sport dport code pkt sp dp st a b c d e f g =
    rw (a, b, c) (rw d (rw (e, f, g) refl))

-- A number is extracted from some digits only.
extract_any :
    (ps : Positions) (num : Bytes)
    → is_empty (extract_legal_number ps num) ≡ false
    → is_empty num ≡ false
unfolding extract_legal_number validate_number_string
extract_any ps [] h = h
extract_any ps (c ∷ num) h = refl

-- The row of a 200 OK message for a call whose called number is legal, whose ports are numbers and
-- whose line of the file is treated to it: `ParseSipPacket` has no error, and the packet has the
-- fields of the row, the parts of the headers and the called number that is extracted, whatever
-- the pooled message and the packet held before.
pub parse_sip_packet-print_row :
    (ps : Positions) (pooled : SipMsg) (line : Bytes) (pkt : SipPacket) (r : Row) (c : Call)
    (sp dp : ℤ)
    → pretreatment line ≡ print_row r
    → IsRow r
    → r.param_content ≡ print_call c
    → IsCall c
    → is_empty (extract_legal_number ps c.to.user) ≡ false
    → atoi r.sport (pos 0) ≡ (sp, false)
    → atoi r.dport (pos 0) ≡ (dp, false)
    → parse_sip_packet ps pooled line pkt ≡ (
      none,
      record {
        event_time = r.event_time;
        sip = r.saddr_v4;
        sport = sp;
        dip = r.daddr_v4;
        dport = dp;
        call_id = c.call_id;
        cseq_method = c.method;
        req_status_code = pos 200;
        from_user = c.from.user;
        to_user = extract_legal_number ps c.to.user;
        user_agent = c.user_agent;
      },
    )
unfolding parse_sip_packet atoi
parse_sip_packet-print_row ps pooled line pkt r c sp dp treated row content v legal hs hd =
    rw (treated, split-print_row r row, parse_fields)
      (rw (content, has_prefix-print_call c)
        (rw (call_packet pooled c v r.event_time r.saddr_v4 r.daddr_v4, call_status pooled c v)
          (check_packet-ok ps r.sport r.dport (codes "200") _ sp dp (pos 200) v.id_any v.method_any
            (extract_any ps c.to.user legal) legal hs hd refl)))
