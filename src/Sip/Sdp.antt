-- ===== src/Sip/Sdp.antt =====
-- model/prot/sip/sdpMediaDesc.go, sdpConnectionData.go and sdpAttrib.go: the lines of a session
-- description.
use cdrrs.Base.{ℕ, [], ◌∷◌, ◌++◌, ◌==◌, if◌then◌else◌, Bytes}
use cdrrs.Sip.Fsm.{
  Field, field_base, field_value, field_port, field_addrtype, field_connaddr, field_media,
  field_proto, field_fmt, field_cat, Move, move, Look, run, parse_line, keep_src,
}

pub record SdpMediaDesc : Type 0 where
  pub media_type : Bytes
  pub port : Bytes
  pub proto : Bytes
  pub fmt : Bytes
  pub src : Bytes

pub record SdpConnData : Type 0 where
  pub addr_type : Bytes
  pub conn_addr : Bytes
  pub src : Bytes

pub record SdpAttrib : Type 0 where
  pub cat : Bytes
  pub val : Bytes
  pub src : Bytes

unfoldable pub step_media_desc : Field → ℕ → ℕ → Look → SdpMediaDesc → Move SdpMediaDesc
step_media_desc field_media p c look out =
    if c == b' '
    then move 1 field_port out
    else move 1 field_media (record out { media_type = out.media_type ++ c ∷ [] })
step_media_desc field_port p c look out =
    if c == b' '
    then move 1 field_proto out
    else move 1 field_port (record out { port = out.port ++ c ∷ [] })
step_media_desc field_proto p c look out =
    if c == b' '
    then move 1 field_fmt out
    else move 1 field_proto (record out { proto = out.proto ++ c ∷ [] })
step_media_desc field_fmt p c look out = move 1 field_fmt (record out { fmt = out.fmt ++ c ∷ [] })
step_media_desc st p c look out = move 1 st out

-- "Init the output area", and the source line.
unfoldable pub clear_media_desc : Bytes → SdpMediaDesc → SdpMediaDesc
clear_media_desc v out = record out {
  media_type = [];
  port = [];
  proto = [];
  fmt = [];
  src = if keep_src then v else [];
}

unfoldable pub parse_sdp_media_desc : Bytes → SdpMediaDesc → SdpMediaDesc
unfolding step_media_desc run clear_media_desc
parse_sdp_media_desc v out = parse_line step_media_desc v field_media (clear_media_desc v out)

unfoldable pub step_conn_data : Field → ℕ → ℕ → Look → SdpConnData → Move SdpConnData
step_conn_data field_base p c look out =
    if c == b' ' then move 1 field_addrtype out else move 1 field_base out
step_conn_data field_addrtype p c look out =
    if c == b' '
    then move 1 field_connaddr out
    else move 1 field_addrtype (record out { addr_type = out.addr_type ++ c ∷ [] })
step_conn_data field_connaddr p c look out =
    if c == b' '
    then move 1 field_base out
    else move 1 field_connaddr (record out { conn_addr = out.conn_addr ++ c ∷ [] })
step_conn_data st p c look out = move 1 st out

-- "Init the output area", and the source line.
unfoldable pub clear_conn_data : Bytes → SdpConnData → SdpConnData
clear_conn_data v out = record out {
  addr_type = [];
  conn_addr = [];
  src = if keep_src then v else [];
}

unfoldable pub parse_sdp_connection_data : Bytes → SdpConnData → SdpConnData
unfolding step_conn_data run clear_conn_data
parse_sdp_connection_data v out = parse_line step_conn_data v field_base (clear_conn_data v out)

unfoldable pub step_attrib : Field → ℕ → ℕ → Look → SdpAttrib → Move SdpAttrib
step_attrib field_cat p c look out =
    if c == b':'
    then move 1 field_value out
    else move 1 field_cat (record out { cat = out.cat ++ c ∷ [] })
step_attrib field_value p c look out = move 1 field_value (record out { val = out.val ++ c ∷ [] })
step_attrib st p c look out = move 1 st out

-- "Init the output area", and the source line.
unfoldable pub clear_attrib : Bytes → SdpAttrib → SdpAttrib
clear_attrib v out = record out { cat = []; val = []; src = if keep_src then v else [] }

unfoldable pub parse_sdp_attrib : Bytes → SdpAttrib → SdpAttrib
unfolding step_attrib run clear_attrib
parse_sdp_attrib v out = parse_line step_attrib v field_cat (clear_attrib v out)
