-- ===== src/Sip/RequestLine.antt =====
-- model/prot/sip/sipRequestLine.go: the first line, a request line or a status line.
use cdrrs.Base.{ℕ, ◌&&◌, ◌||◌, [], ◌∷◌, ◌++◌, ◌==◌, ltb, leb, if◌then◌else◌, equal, codes, Bytes}
use cdrrs.Sip.Fsm.{
  Field, field_null, field_base, field_user, field_host, field_port, field_method, field_usertype,
  field_status, field_statusdesc, Move, move, Look, run, parse_line, keep_src,
}

pub record SipReq : Type 0 where
  pub method : Bytes
  pub uri_type : Bytes
  pub status_code : Bytes
  pub status_desc : Bytes
  pub user : Bytes
  pub host : Bytes
  pub port : Bytes
  pub user_type : Bytes
  pub src : Bytes

-- `case FIELD_BASE`.
step_req_base : ℕ → Look → SipReq → Move SipReq
step_req_base c look out =
    if c == b' '
    then move 1 field_base out
    else if equal (look 0 4) (codes "sip:")
    then move 4 field_user (record out { uri_type = codes "sip" })
    else if equal (look 0 5) (codes "sips:")
    then move 5 field_user (record out { uri_type = codes "sips" })
    else if equal (look 0 4) (codes "tel:")
    then move 4 field_user (record out { uri_type = codes "tel" })
    else if equal (look 0 5) (codes "user=")
    then move 5 field_usertype out
    else if c == b'@'
    then move 1 field_host (record out { user = out.host; host = [] })
    else move 1 field_base out

unfoldable pub step_req : Field → ℕ → ℕ → Look → SipReq → Move SipReq
unfolding step_req_base
step_req field_null p c look out =
    if leb b'A' c && leb c b'S' && p == 0 then move 0 field_method out else move 1 field_null out
step_req field_method p c look out =
    if c == b' ' || ltb 9 p
    then (if equal out.method (codes "SIP/2.0")
        then move 1 field_status (record out { method = [] })
        else move 1 field_base out)
    else move 1 field_method (record out { method = out.method ++ c ∷ [] })
step_req field_base p c look out = step_req_base c look out
step_req field_user p c look out =
    if c == b':'
    then move 1 field_port out
    else if c == b';' || c == b'>'
    then move 1 field_base out
    else if c == b'@'
    then move 1 field_host (record out { user = out.host; host = [] })
    else move 1 field_user (record out { host = out.host ++ c ∷ [] })
step_req field_host p c look out =
    if c == b':'
    then move 1 field_port out
    else if c == b';' || c == b'>' || c == b' '
    then move 1 field_base out
    else move 1 field_host (record out { host = out.host ++ c ∷ [] })
step_req field_port p c look out =
    if c == b';' || c == b'>' || c == b' '
    then move 1 field_base out
    else move 1 field_port (record out { port = out.port ++ c ∷ [] })
step_req field_usertype p c look out =
    if c == b';' || c == b'>' || c == b' '
    then move 1 field_base out
    else move 1 field_usertype (record out { user_type = out.user_type ++ c ∷ [] })
step_req field_status p c look out =
    if c == b';' || c == b'>'
    then move 1 field_base out
    else if c == b' '
    then move 1 field_statusdesc out
    else move 1 field_status (record out { status_code = out.status_code ++ c ∷ [] })
step_req field_statusdesc p c look out =
    if c == b';' || c == b'>'
    then move 1 field_base out
    else move 1 field_statusdesc (record out { status_desc = out.status_desc ++ c ∷ [] })
step_req st p c look out = move 1 st out

-- "Init the output area", and the source line. `StatusDesc` is not among the fields that are reset.
unfoldable pub clear_req : Bytes → SipReq → SipReq
clear_req v out = record out {
  uri_type = [];
  method = [];
  status_code = [];
  user = [];
  host = [];
  port = [];
  user_type = [];
  src = if keep_src then v else [];
}

unfoldable pub parse_sip_req : Bytes → SipReq → SipReq
unfolding step_req run clear_req
parse_sip_req v out = parse_line step_req v field_null (clear_req v out)
