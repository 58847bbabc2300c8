-- ===== src/Sip/Message.antt =====
-- `Parse` of model/prot/sip/sip.go. The message that it writes to comes from a pool and is an
-- argument, with whatever an earlier use left in it.
pub mod Headers
pub mod Whole
use cdrrs.Base.{
  Bool, ℕ, zero, suc, ◌+◌, ◌||◌, ◌&&◌, List, [], ◌∷◌, ◌++◌, ℤ, pos, negsuc, ◌==◌, ltb,
  if◌then◌else◌, equal, codes, take, drop, slice, Bytes,
}
use cdrrs.Bytes.{split, trim_space, to_lower}
use cdrrs.Sip.Slices.{index_sep}
use cdrrs.Sip.RequestLine.{SipReq, parse_sip_req}
use cdrrs.Sip.From.{SipFrom, parse_sip_from}
use cdrrs.Sip.To.{SipTo, parse_sip_to}
use cdrrs.Sip.Contact.{SipContact, parse_sip_contact}
use cdrrs.Sip.Via.{SipVia, parse_sip_via}
use cdrrs.Sip.Cseq.{SipCseq, parse_sip_cseq}
use cdrrs.Sip.Sdp.{SdpMediaDesc, SdpConnData, SdpAttrib}

pub record SipVal : Type 0 where
  pub value : Bytes
  pub src : Bytes

pub record SdpMsg : Type 0 where
  pub media_desc : SdpMediaDesc
  pub attrib : List SdpAttrib
  pub conn_data : SdpConnData

pub record SipMsg : Type 0 where
  pub req : SipReq
  pub from : SipFrom
  pub to : SipTo
  pub contact : SipContact
  pub via : List SipVia
  pub cseq : SipCseq
  pub ua : SipVal
  pub exp : SipVal
  pub max_fwd : SipVal
  pub call_id : SipVal
  pub cont_type : SipVal
  pub cont_len : SipVal
  pub sdp : SdpMsg

-- The zero value `tmpVia`.
abbrev pub tmp_via : SipVia
tmp_via = record {
  trans = [];
  host = [];
  port = [];
  branch = [];
  rport = [];
  maddr = [];
  ttl = [];
  rcvd = [];
  src = [];
}

abbrev pub is_either : Bytes → Bytes → Bytes → Bool
is_either s a b = equal s a || equal s b

-- The switch on the name of a header. `via_idx` is always the index of the last Via, as it grows
-- with each one that is appended.
unfoldable pub parse_header : Bytes → Bytes → SipMsg → SipMsg
parse_header lhdr lval output =
    if is_either lhdr (codes "f") (codes "from")
    then record output { from = parse_sip_from lval output.from }
    else if is_either lhdr (codes "t") (codes "to")
    then record output { to = parse_sip_to lval output.to }
    else if is_either lhdr (codes "m") (codes "contact")
    then record output { contact = parse_sip_contact lval output.contact }
    else if is_either lhdr (codes "v") (codes "via")
    then record output { via = output.via ++ parse_sip_via lval tmp_via ∷ [] }
    else if is_either lhdr (codes "i") (codes "call-id")
    then record output { call_id = record output.call_id { value = lval } }
    else if is_either lhdr (codes "c") (codes "content-type")
    then record output { cont_type = record output.cont_type { value = lval } }
    else if equal lhdr (codes "content-length")
    then record output { cont_len = record output.cont_len { value = lval } }
    else if equal lhdr (codes "user-agent")
    then record output { ua = record output.ua { value = lval } }
    else if equal lhdr (codes "expires")
    then record output { exp = record output.exp { value = lval } }
    else if equal lhdr (codes "max-forwards")
    then record output { max_fwd = record output.max_fwd { value = lval } }
    else if equal lhdr (codes "cseq")
    then record output { cseq = parse_sip_cseq lval output.cseq }
    else output

-- `spos > 0 && stype == ':'`; a line of a session description (`spos == 1 && stype == '='`) is
-- skipped by a `continue` in front of the code that would read it.
header_at : ℤ × ℕ → Bytes → SipMsg → SipMsg
header_at (negsuc n, stype) line output = output
header_at (pos spos, stype) line output =
    if ltb 0 spos && stype == b':'
    then parse_header (to_lower (slice line 0 spos)) (trim_space (drop (spos + 1) line)) output
    else output

-- One line behind the first.
unfoldable pub parse_line : Bytes → SipMsg → SipMsg
unfolding parse_header header_at
parse_line line output =
    let trimmed = trim_space line in header_at (index_sep trimmed) trimmed output

unfoldable pub parse_lines : List Bytes → SipMsg → SipMsg
unfolding parse_line
parse_lines [] output = output
parse_lines (line ∷ lines) output = parse_lines lines (parse_line line output)

-- The loop over the lines: the first one holds the request.
unfoldable pub parse_message : List Bytes → SipMsg → SipMsg
unfolding parse_lines
parse_message [] output = output
parse_message (line ∷ lines) output =
    parse_lines lines (record output { req = parse_sip_req (trim_space line) output.req })

abbrev pub crlf : Bytes
crlf = codes "\r\n"

unfoldable pub parse : SipMsg → Bytes → SipMsg
unfolding parse_message
parse pooled v =
    parse_message (split crlf v)
      (record pooled { via = []; sdp = record pooled.sdp { attrib = [] } })
