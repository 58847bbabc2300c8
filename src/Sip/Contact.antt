-- ===== src/Sip/Contact.antt =====
-- model/prot/sip/sipContact.go: the Contact header.
use cdrrs.Base.{
  ℕ, not, ◌&&◌, ◌||◌, [], ◌∷◌, ◌++◌, ◌==◌, if◌then◌else◌, equal, is_empty, codes, Bytes,
}
use cdrrs.Sip.Fsm.{
  Field, field_base, field_name, field_nameq, field_user, field_host, field_port, field_tran,
  field_expires, field_q, field_ignore, Move, move, Look, run, parse_line, keep_src,
}

pub record SipContact : Type 0 where
  pub uri_type : Bytes
  pub name : Bytes
  pub user : Bytes
  pub host : Bytes
  pub port : Bytes
  pub tran : Bytes
  pub qval : Bytes
  pub expires : Bytes
  pub src : Bytes

-- `case FIELD_BASE`.
step_contact_base : ℕ → Look → SipContact → Move SipContact
step_contact_base c look out =
    if c == b'"' && is_empty out.uri_type
    then move 1 field_nameq out
    else if c == b' '
    then move 1 field_base out
    else if equal (look 0 4) (codes "sip:")
    then move 4 field_user (record out { uri_type = codes "sip" })
    else if equal (look 0 5) (codes "sips:")
    then move 5 field_user (record out { uri_type = codes "sips" })
    else if equal (look 0 4) (codes "tel:")
    then move 4 field_user (record out { uri_type = codes "tel" })
    else if equal (look 0 2) (codes "q=")
    then move 2 field_q out
    else if equal (look 0 8) (codes "expires=")
    then move 8 field_expires out
    else if equal (look 0 10) (codes "transport=")
    then move 10 field_tran out
    else if c == b'='
    then move 1 field_ignore out
    else if not (c == b'<') && not (c == b'>') && not (c == b';') && is_empty out.uri_type
    then move 0 field_name out
    else move 1 field_base out

unfoldable pub step_contact : Field → ℕ → ℕ → Look → SipContact → Move SipContact
unfolding step_contact_base
step_contact field_base p c look out = step_contact_base c look out
step_contact field_nameq p c look out =
    if c == b'"'
    then move 1 field_base out
    else move 1 field_nameq (record out { name = out.name ++ c ∷ [] })
step_contact field_name p c look out =
    if c == b'<' || c == b' '
    then move 1 field_base out
    else move 1 field_name (record out { name = out.name ++ c ∷ [] })
step_contact field_user p c look out =
    if c == b'@'
    then move 1 field_host out
    else move 1 field_user (record out { user = out.user ++ c ∷ [] })
step_contact field_host p c look out =
    if c == b':'
    then move 1 field_port out
    else if c == b';' || c == b'>'
    then move 1 field_base out
    else move 1 field_host (record out { host = out.host ++ c ∷ [] })
step_contact field_port p c look out =
    if c == b';' || c == b'>' || c == b' '
    then move 1 field_base out
    else move 1 field_port (record out { port = out.port ++ c ∷ [] })
step_contact field_tran p c look out =
    if c == b';' || c == b'>' || c == b' '
    then move 1 field_base out
    else move 1 field_tran (record out { tran = out.tran ++ c ∷ [] })
step_contact field_q p c look out =
    if c == b';' || c == b'>' || c == b' '
    then move 1 field_base out
    else move 1 field_q (record out { qval = out.qval ++ c ∷ [] })
step_contact field_expires p c look out =
    if c == b';' || c == b'>' || c == b' '
    then move 1 field_base out
    else move 1 field_expires (record out { expires = out.expires ++ c ∷ [] })
step_contact field_ignore p c look out =
    if c == b';' || c == b'>' then move 1 field_base out else move 1 field_ignore out
step_contact st p c look out = move 1 st out

-- "Init the output area", and the source line.
unfoldable pub clear_contact : Bytes → SipContact → SipContact
clear_contact v out = record out {
  uri_type = [];
  name = [];
  user = [];
  host = [];
  port = [];
  tran = [];
  qval = [];
  expires = [];
  src = if keep_src then v else [];
}

unfoldable pub parse_sip_contact : Bytes → SipContact → SipContact
unfolding step_contact run clear_contact
parse_sip_contact v out = parse_line step_contact v field_base (clear_contact v out)
