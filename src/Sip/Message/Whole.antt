-- ===== src/Sip/Message/Whole.antt =====
-- A whole message: a first line, header lines, and the lines of a body.
use cdrrs.Base.{
  ◌≡◌, refl, ◌∙◌, ap, false, List, [], ◌∷◌, ◌++◌, map, ◌==◌, All, codes, Bytes, arith, pos, negsuc,
  ℤ, ℕ,
}
use cdrrs.Bytes.{trim_space, to_lower, join}
use cdrrs.Bytes.Split.{split-join, AllWithout}
use cdrrs.Sip.Slices.{index_sep}
use cdrrs.Sip.RequestLine.{parse_sip_req}
use cdrrs.Sip.Message.{SipMsg, parse_header, parse_line, parse_lines, parse_message, parse, crlf}
use cdrrs.Sip.Message.Headers.{Header, print_header, IsHeader, parse_line-print_header}

-- The headers one after another, each handled by the switch.
unfoldable pub apply_headers : List Header → SipMsg → SipMsg
apply_headers [] out = out
apply_headers (h ∷ hs) out = apply_headers hs (parse_header (to_lower h.name) h.value out)

-- A line with no colon before its first '=', such as an empty line or one of a session description.
abbrev pub IsBody : Bytes → Type 0
IsBody line = ((index_sep (trim_space line)).1 == b':') ≡ false

header_at_body : (line : Bytes) (out : SipMsg) → IsBody line → parse_line line out ≡ out
unfolding parse_line
header_at_body line out h = go (index_sep (trim_space line)) refl
  where
    go : (s : ℤ × ℕ) → index_sep (trim_space line) ≡ s → parse_line line out ≡ out
    go (negsuc n, stype) e = rw (e, parse_line) refl
    go (pos n, stype) e = rw (e, parse_line) (ground (arith, rw e at h))

parse_lines-body : (body : List Bytes) (out : SipMsg) → All IsBody body → parse_lines body out ≡ out
unfolding parse_lines
parse_lines-body [] out h = refl
parse_lines-body (b ∷ body) out (hb, h) =
    ap (parse_lines body) (header_at_body b out hb) ∙ parse_lines-body body out h

parse_lines-headers :
    (hs : List Header) (body : List Bytes) (out : SipMsg)
    → All IsHeader hs
    → All IsBody body
    → parse_lines (map print_header hs ++ body) out ≡ apply_headers hs out
unfolding parse_lines apply_headers
parse_lines-headers [] body out v b = parse_lines-body body out b
parse_lines-headers (h ∷ hs) body out (vh, v) b =
    ap (parse_lines (map print_header hs ++ body)) (parse_line-print_header h out vh)
    ∙ parse_lines-headers hs body _ v b

abbrev pub print_message : Bytes → List Header → List Bytes → Bytes
print_message first hs body = join crlf (first ∷ (map print_header hs ++ body))

-- The lines can be told apart: no carriage return inside a line.
abbrev pub AreLines : Bytes → List Header → List Bytes → Type 0
AreLines first hs body = AllWithout b'\r' (first ∷ (map print_header hs ++ body))

-- A message is printed from a first line with no blank at its ends, headers whose lines have none
-- either, with a name that is not empty and holds neither ':' nor '=', and lines of a body in which
-- no ':' stands before the first '=', and no line holds a carriage return. It is read as its first
-- line and then its headers in their order, each by its name in lower case and its trimmed value;
-- such lines of a body change nothing. All else in the result is what the pooled message held
-- before, but that the Via headers and the attributes start empty.
pub parse-print_message :
    (pooled : SipMsg) (first : Bytes) (hs : List Header) (body : List Bytes)
    → AreLines first hs body
    → trim_space first ≡ first
    → All IsHeader hs
    → All IsBody body
    → parse pooled (print_message first hs body)
      ≡ apply_headers hs (record pooled {
        req = parse_sip_req first pooled.req;
        via = [];
        sdp = record pooled.sdp { attrib = [] };
      })
unfolding parse parse_message
parse-print_message pooled first hs body lines trimmed v b =
    rw (split-join b'\r' (codes "\n") first (map print_header hs ++ body) lines)
      (rw trimmed (parse_lines-headers hs body _ v b))
