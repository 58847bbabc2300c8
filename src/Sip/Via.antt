-- ===== src/Sip/Via.antt =====
-- model/prot/sip/sipVia.go: the Via header.
use cdrrs.Base.{ℕ, ◌+◌, [], ◌∷◌, ◌++◌, ◌==◌, if◌then◌else◌, equal, codes, Bytes}
use cdrrs.Sip.Fsm.{
  Field, field_base, field_host, field_port, field_branch, field_rport, field_maddr, field_ttl,
  field_rec, Move, move, Look, run, parse_line, keep_src,
}

pub record SipVia : Type 0 where
  pub trans : Bytes
  pub host : Bytes
  pub port : Bytes
  pub branch : Bytes
  pub rport : Bytes
  pub maddr : Bytes
  pub ttl : Bytes
  pub rcvd : Bytes
  pub src : Bytes

-- The parameters that `case FIELD_BASE` looks for, from `k` bytes behind the position, in state `st`.
via_params : ℕ → Field → Look → SipVia → Move SipVia
via_params k st look out =
    if equal (look k 7) (codes "branch=")
    then move (k + 7) field_branch out
    else if equal (look k 6) (codes "rport=")
    then move (k + 6) field_rport out
    else if equal (look k 6) (codes "maddr=")
    then move (k + 6) field_maddr out
    else if equal (look k 4) (codes "ttl=")
    then move (k + 4) field_ttl out
    else if equal (look k 9) (codes "received=")
    then move (k + 9) field_rec out
    else move (k + 1) st out

-- The transport behind "SIP/2.0/"; for any other the checks for parameters follow, still in state
-- FIELD_HOST.
via_transport : Look → SipVia → Move SipVia
via_transport look out =
    if equal (look 8 3) (codes "UDP")
    then move 11 field_host (record out { trans = codes "udp" })
    else if equal (look 8 3) (codes "TCP")
    then move 11 field_host (record out { trans = codes "tcp" })
    else if equal (look 8 3) (codes "TLS")
    then move 11 field_host (record out { trans = codes "tls" })
    else if equal (look 8 4) (codes "SCTP")
    then move 12 field_host (record out { trans = codes "sctp" })
    else via_params 8 field_host look out

unfoldable pub step_via : Field → ℕ → ℕ → Look → SipVia → Move SipVia
unfolding via_params via_transport
step_via field_base p c look out =
    if c == b' '
    then move 1 field_base out
    else if equal (look 0 8) (codes "SIP/2.0/")
    then via_transport look out
    else via_params 0 field_base look out
step_via field_host p c look out =
    if c == b':'
    then move 1 field_port out
    else if c == b';'
    then move 1 field_base out
    else if c == b' '
    then move 1 field_host out
    else move 1 field_host (record out { host = out.host ++ c ∷ [] })
step_via field_port p c look out =
    if c == b';'
    then move 1 field_base out
    else move 1 field_port (record out { port = out.port ++ c ∷ [] })
step_via field_branch p c look out =
    if c == b';'
    then move 1 field_base out
    else move 1 field_branch (record out { branch = out.branch ++ c ∷ [] })
step_via field_rport p c look out =
    if c == b';'
    then move 1 field_base out
    else move 1 field_rport (record out { rport = out.rport ++ c ∷ [] })
step_via field_maddr p c look out =
    if c == b';'
    then move 1 field_base out
    else move 1 field_maddr (record out { maddr = out.maddr ++ c ∷ [] })
step_via field_ttl p c look out =
    if c == b';'
    then move 1 field_base out
    else move 1 field_ttl (record out { ttl = out.ttl ++ c ∷ [] })
step_via field_rec p c look out =
    if c == b';'
    then move 1 field_base out
    else move 1 field_rec (record out { rcvd = out.rcvd ++ c ∷ [] })
step_via st p c look out = move 1 st out

-- "Init the output area", and the source line.
unfoldable pub clear_via : Bytes → SipVia → SipVia
clear_via v out = record out {
  trans = [];
  host = [];
  port = [];
  branch = [];
  rport = [];
  maddr = [];
  ttl = [];
  rcvd = [];
  src = if keep_src then v else [];
}

unfoldable pub parse_sip_via : Bytes → SipVia → SipVia
unfolding step_via run clear_via
parse_sip_via v out = parse_line step_via v field_base (clear_via v out)
