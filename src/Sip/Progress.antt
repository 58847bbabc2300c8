-- ===== src/Sip/Progress.antt =====
-- The body of every parser's loop makes progress, so every parser comes to the end of its line.
use cdrrs.Base.{Bytes, arith}
use cdrrs.Sip.Fsm.{field_null, field_base, field_id, field_cat, field_media}
use cdrrs.Sip.Fsm.Laws.{Progress}
use cdrrs.Sip.Fsm.Termination.{Runs, parse_line-Runs}
use cdrrs.Sip.RequestLine.{SipReq, step_req, clear_req, parse_sip_req}
use cdrrs.Sip.From.{SipFrom, step_from, clear_from, parse_sip_from}
use cdrrs.Sip.To.{SipTo, step_to, clear_to, parse_sip_to}
use cdrrs.Sip.Contact.{SipContact, step_contact, clear_contact, parse_sip_contact}
use cdrrs.Sip.Via.{SipVia, step_via, clear_via, parse_sip_via}
use cdrrs.Sip.Cseq.{SipCseq, step_cseq, clear_cseq, parse_sip_cseq}
use cdrrs.Sip.Sdp.{
  SdpMediaDesc, step_media_desc, clear_media_desc, parse_sdp_media_desc, SdpConnData,
  step_conn_data, clear_conn_data, parse_sdp_connection_data, SdpAttrib, step_attrib, clear_attrib,
  parse_sdp_attrib,
}

pub step_req-Progress : Progress step_req
unfolding step_req
step_req-Progress field_null p c look out = ground arith
step_req-Progress _ p c look out = ground arith

pub step_from-Progress : Progress step_from
unfolding step_from
step_from-Progress field_base p c look out = ground arith
step_from-Progress _ p c look out = ground arith

pub step_to-Progress : Progress step_to
unfolding step_to
step_to-Progress field_base p c look out = ground arith
step_to-Progress _ p c look out = ground arith

pub step_contact-Progress : Progress step_contact
unfolding step_contact
step_contact-Progress field_base p c look out = ground arith
step_contact-Progress _ p c look out = ground arith

pub step_via-Progress : Progress step_via
unfolding step_via
step_via-Progress field_base p c look out = ground arith
step_via-Progress _ p c look out = ground arith

pub step_cseq-Progress : Progress step_cseq
unfolding step_cseq
step_cseq-Progress field_id p c look out = ground arith
step_cseq-Progress _ p c look out = ground arith

pub step_media_desc-Progress : Progress step_media_desc
unfolding step_media_desc
step_media_desc-Progress field_media p c look out = ground arith
step_media_desc-Progress _ p c look out = ground arith

pub step_conn_data-Progress : Progress step_conn_data
unfolding step_conn_data
step_conn_data-Progress field_base p c look out = ground arith
step_conn_data-Progress _ p c look out = ground arith

pub step_attrib-Progress : Progress step_attrib
unfolding step_attrib
step_attrib-Progress field_cat p c look out = ground arith
step_attrib-Progress _ p c look out = ground arith

-- Whatever the line and the output it is given hold, the loop of each of the nine parsers ends
-- after finitely many rounds, and the parser's result is the output that it ends with.
pub parsers_terminate :
    (v : Bytes) (req : SipReq) (from : SipFrom) (to : SipTo) (contact : SipContact) (via : SipVia)
    (cseq : SipCseq) (media : SdpMediaDesc) (conn : SdpConnData) (attrib : SdpAttrib)
    → Runs step_req v 0 field_null (clear_req v req) (parse_sip_req v req)
      × Runs step_from v 0 field_base (clear_from v from) (parse_sip_from v from)
      × Runs step_to v 0 field_base (clear_to v to) (parse_sip_to v to)
      × Runs step_contact v 0 field_base (clear_contact v contact) (parse_sip_contact v contact)
      × Runs step_via v 0 field_base (clear_via v via) (parse_sip_via v via)
      × Runs step_cseq v 0 field_id (clear_cseq v cseq) (parse_sip_cseq v cseq)
      × Runs step_media_desc v 0 field_media
          (clear_media_desc v media)
          (parse_sdp_media_desc v media)
      × Runs step_conn_data v 0 field_base
          (clear_conn_data v conn)
          (parse_sdp_connection_data v conn)
      × Runs step_attrib v 0 field_cat (clear_attrib v attrib) (parse_sdp_attrib v attrib)
unfolding parse_sip_req parse_sip_from parse_sip_to parse_sip_contact parse_sip_via parse_sip_cseq
    parse_sdp_media_desc parse_sdp_connection_data parse_sdp_attrib
parsers_terminate v req from to contact via cseq media conn attrib = (
  parse_line-Runs step_req step_req-Progress v field_null _,
  parse_line-Runs step_from step_from-Progress v field_base _,
  parse_line-Runs step_to step_to-Progress v field_base _,
  parse_line-Runs step_contact step_contact-Progress v field_base _,
  parse_line-Runs step_via step_via-Progress v field_base _,
  parse_line-Runs step_cseq step_cseq-Progress v field_id _,
  parse_line-Runs step_media_desc step_media_desc-Progress v field_media _,
  parse_line-Runs step_conn_data step_conn_data-Progress v field_base _,
  parse_line-Runs step_attrib step_attrib-Progress v field_cat _,
)
