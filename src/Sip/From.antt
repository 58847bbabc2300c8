-- ===== src/Sip/From.antt =====
-- model/prot/sip/sipFrom.go: the From header.
use cdrrs.Base.{
  ℕ, not, ◌&&◌, ◌||◌, [], ◌∷◌, ◌++◌, ◌==◌, if◌then◌else◌, equal, is_empty, codes, Bytes,
}
use cdrrs.Sip.Fsm.{
  Field, field_base, field_name, field_nameq, field_user, field_host, field_port, field_tag,
  field_usertype, field_ignore, Move, move, Look, run, parse_line, keep_src,
}

pub record SipFrom : Type 0 where
  pub uri_type : Bytes
  pub name : Bytes
  pub user : Bytes
  pub host : Bytes
  pub port : Bytes
  pub tag : Bytes
  pub user_type : Bytes
  pub src : Bytes

-- `case FIELD_BASE`.
step_from_base : ℕ → Look → SipFrom → Move SipFrom
step_from_base c look out =
    if c == b'"' && is_empty out.uri_type
    then move 1 field_nameq out
    else if c == b' '
    then move 1 field_base out
    else if equal (look 0 4) (codes "sip:")
    then move 4 field_user (record out { uri_type = codes "sip" })
    else if equal (look 0 5) (codes "sips:")
    then move 5 field_user (record out { uri_type = codes "sips" })
    else if equal (look 0 4) (codes "tel:")
    then move 4 field_user (record out { uri_type = codes "tel" })
    else if equal (look 0 4) (codes "tag=")
    then move 4 field_tag out
    else if c == b'='
    then move 1 field_ignore out
    else if equal (look 0 5) (codes "user=")
    then move 5 field_usertype out
    else if not (c == b'<') && not (c == b'>') && not (c == b';') && is_empty out.uri_type
    then move 0 field_name out
    else move 1 field_base out

unfoldable pub step_from : Field → ℕ → ℕ → Look → SipFrom → Move SipFrom
unfolding step_from_base
step_from field_base p c look out = step_from_base c look out
step_from field_nameq p c look out =
    if c == b'"'
    then move 1 field_base out
    else move 1 field_nameq (record out { name = out.name ++ c ∷ [] })
step_from field_name p c look out =
    if c == b'<' || c == b' '
    then move 1 field_base out
    else move 1 field_name (record out { name = out.name ++ c ∷ [] })
step_from field_user p c look out =
    if c == b'@'
    then move 1 field_host out
    else move 1 field_user (record out { user = out.user ++ c ∷ [] })
step_from field_host p c look out =
    if c == b':'
    then move 1 field_port out
    else if c == b';' || c == b'>'
    then move 1 field_base out
    else move 1 field_host (record out { host = out.host ++ c ∷ [] })
step_from field_port p c look out =
    if c == b';' || c == b'>' || c == b' '
    then move 1 field_base out
    else move 1 field_port (record out { port = out.port ++ c ∷ [] })
step_from field_usertype p c look out =
    if c == b';' || c == b'>' || c == b' '
    then move 1 field_base out
    else move 1 field_usertype (record out { user_type = out.user_type ++ c ∷ [] })
step_from field_tag p c look out =
    if c == b';' || c == b'>' || c == b' '
    then move 1 field_base out
    else move 1 field_tag (record out { tag = out.tag ++ c ∷ [] })
step_from field_ignore p c look out =
    if c == b';' || c == b'>' then move 1 field_base out else move 1 field_ignore out
step_from st p c look out = move 1 st out

-- "Init the output area", and the source line.
unfoldable pub clear_from : Bytes → SipFrom → SipFrom
clear_from v out = record out {
  uri_type = [];
  name = [];
  user = [];
  host = [];
  port = [];
  tag = [];
  user_type = [];
  src = if keep_src then v else [];
}

unfoldable pub parse_sip_from : Bytes → SipFrom → SipFrom
unfolding step_from run clear_from
parse_sip_from v out = parse_line step_from v field_base (clear_from v out)
