-- ===== src/Tests/Lines.antt =====
-- The lines of a call at concrete inputs.
use cdrrs.Base.{◌≡◌, refl, [], ◌∷◌, pos, ◌-ℤ◌, codes, ok, arith, some, uint16}
use cdrrs.Bytes.{has_prefix, cut, join, trim_space}
use cdrrs.Sip.Slices.{index_sep}
use cdrrs.Model.Position.{validate_number_string, query_mobile_number_position}
use cdrrs.Model.Number.{extract_legal_number}
use cdrrs.Model.Row.{pretreatment}
use cdrrs.Model.Row.RoundTrip.{print_row, IsRow}
use cdrrs.Model.Atoi.{atoi}
use cdrrs.Model.Packet.Accepted.{IsCall}
use cdrrs.Model.Item.{empty_sip_item}
use cdrrs.Model.Cdr.{VoipCdr}
use cdrrs.Service.Todo.{lookup}
use cdrrs.Service.Synth.{◌>>=◌, Appended}
use cdrrs.Service.Line.{handle_line, do_line}
use cdrrs.Service.Line.Halves.{IsHalf, do_line-IsHalf}
use cdrrs.Service.Line.Restored.{
  Sent, IsSent, invite_half, do_line-invite, do_line-bye, handle_line-restored,
}
use cdrrs.Tests.Data.{
  fresh, call, row, line, bye_call, bye_row, bye_line, positions, env, invite, bye,
}
use cdrrs.Tests.Model.{treated, row_is, call_is}

abbrev invite_sent : Sent
invite_sent = record { line = line; row = row; call = call; sport = pos 5060; dport = pos 5061 }

abbrev bye_sent : Sent
bye_sent = record {
  line = bye_line;
  row = bye_row;
  call = bye_call;
  sport = pos 5060;
  dport = pos 5061;
}

bye_treated : pretreatment bye_line ≡ print_row bye_row
unfolding pretreatment has_prefix cut join
bye_treated = refl

bye_row_is : IsRow bye_row
bye_row_is = record {
  time_is = ground arith;
  time_no_comma = ground arith;
  id_is = row_is.id_is;
  saddr_is = row_is.saddr_is;
  sport_is = row_is.sport_is;
  daddr_is = row_is.daddr_is;
  dport_is = row_is.dport_is;
  id_any = refl;
  saddr_any = refl;
  sport_any = refl;
  daddr_any = refl;
  dport_any = refl;
}

bye_call_is : IsCall bye_call
unfolding trim_space index_sep
bye_call_is =
    let (from, (to, (id, (cseq, rest)))) = call_is.headers_are in
    record {
      from_is = call_is.from_is;
      to_is = call_is.to_is;
      id_any = refl;
      body_is = call_is.body_is;
      cseq_is = ground arith;
      method_any = refl;
      headers_are = (
        from,
        (
          to,
          (
            id,
            (
              record {
                not_empty = omega arith;
                no_sep = ground arith;
                line_is = refl;
                value_is = refl;
              },
              rest,
            ),
          ),
        ),
      );
      lines_are = ground arith;
    }

invite_is : IsSent positions invite_sent
unfolding atoi extract_legal_number validate_number_string query_mobile_number_position has_prefix
invite_is = record {
  treated = treated;
  row_is = row_is;
  content_is = refl;
  call_is = call_is;
  legal = refl;
  sport_is = refl;
  dport_is = refl;
}

bye_is : IsSent positions bye_sent
unfolding atoi extract_legal_number validate_number_string query_mobile_number_position has_prefix
bye_is = record {
  treated = bye_treated;
  row_is = bye_row_is;
  content_is = refl;
  call_is = bye_call_is;
  legal = refl;
  sport_is = refl;
  dport_is = refl;
}

do_line-IsHalf_example : IsHalf positions (invite_half positions invite_sent)
do_line-IsHalf_example =
    do_line-IsHalf positions fresh empty_sip_item line (invite_half positions invite_sent)
      (do_line-invite positions fresh empty_sip_item invite_sent invite_is refl)

handle_line-restored_example :
    (cdr : VoipCdr) × ((handle_line env fresh empty_sip_item [] line
        >>= (λ (r : Appended). handle_line env fresh empty_sip_item r.0 bye_line))
      ≡ ok ([], cdr ∷ []))
    × ((handle_line env fresh empty_sip_item [] bye_line
          >>= (λ (r : Appended). handle_line env fresh empty_sip_item r.0 line))
        ≡ ok ([], cdr ∷ []))
    × (cdr.connect_time ≡ pos 1606780800)
    × (cdr.disconnect_time ≡ pos 1606780890)
    × (cdr.duration ≡ pos 1606780890 -ℤ pos 1606780800)
    × (cdr.caller_num ≡ codes "1001")
    × (cdr.callee_num ≡ extract_legal_number positions (codes "8613912345678"))
    × (cdr.caller_ip ≡ codes "10.0.0.1")
    × (cdr.callee_ip ≡ codes "10.0.0.2")
unfolding lookup
handle_line-restored_example =
    handle_line-restored env [] fresh fresh empty_sip_item empty_sip_item invite_sent bye_sent
      (pos 1606780800) (pos 1606780890) invite_is bye_is refl refl refl refl refl refl refl refl

pub do_line-line : do_line env.positions fresh empty_sip_item line ≡ some invite
unfolding extract_legal_number validate_number_string query_mobile_number_position has_prefix uint16
do_line-line = do_line-invite positions fresh empty_sip_item invite_sent invite_is refl

pub do_line-bye_line : do_line env.positions fresh empty_sip_item bye_line ≡ some bye
unfolding extract_legal_number validate_number_string query_mobile_number_position has_prefix uint16
do_line-bye_line = do_line-bye positions fresh empty_sip_item bye_sent bye_is refl
