-- ===== src/Tests/Model.antt =====
-- The data model at concrete inputs.
use cdrrs.Base.{is_ok, ◌≡◌, refl, none, pos, codes, arith}
use cdrrs.Bytes.{cut, has_prefix, trim_space, join}
use cdrrs.Sip.Slices.{index_sep}
use cdrrs.Model.Position.Validated.{validate_fixed_number-query_fixed_number_position}
use cdrrs.Model.Position.{
  validate_fixed_number, validate_mobile_number, query_fixed_number_position,
  validate_number_string, query_mobile_number_position,
}
use cdrrs.Model.Number.{extract_legal_number}
use cdrrs.Model.Number.Resolves.{Resolves, extract_legal_number-Resolves}
use cdrrs.Model.Row.{pretreatment}
use cdrrs.Model.Row.RoundTrip.{print_row, IsRow}
use cdrrs.Model.Atoi.{atoi}
use cdrrs.Model.Packet.{parse_sip_packet}
use cdrrs.Model.Packet.Accepted.{IsCall, parse_sip_packet-print_row}
use cdrrs.Tests.Data.{fresh, call, row, line, positions, no_packet}

pub treated : pretreatment line ≡ print_row row
unfolding pretreatment has_prefix cut join
treated = refl

legal : extract_legal_number positions (codes "8613912345678") ≡ codes "13912345678"
unfolding extract_legal_number validate_number_string query_mobile_number_position has_prefix
legal = refl

pub row_is : IsRow row
unfolding join
row_is = record {
  time_is = ground arith;
  time_no_comma = ground arith;
  id_is = ground arith;
  saddr_is = ground arith;
  sport_is = ground arith;
  daddr_is = ground arith;
  dport_is = ground arith;
  id_any = refl;
  saddr_any = refl;
  sport_any = refl;
  daddr_any = refl;
  dport_any = refl;
}

pub call_is : IsCall call
unfolding trim_space index_sep
call_is = record {
  from_is = record {
    name_is = ground arith;
    user_is = ground arith;
    host_is = ground arith;
    port_is = ground arith;
    tag_is = ground arith;
  };
  to_is = record {
    name_is = ground arith;
    user_is = ground arith;
    host_is = ground arith;
    port_is = ground arith;
    tag_is = ground arith;
  };
  id_any = refl;
  cseq_is = ground arith;
  method_any = refl;
  headers_are = (
    record { not_empty = omega arith; no_sep = ground arith; line_is = refl; value_is = refl },
    (
      record { not_empty = omega arith; no_sep = ground arith; line_is = refl; value_is = refl },
      (
        record { not_empty = omega arith; no_sep = ground arith; line_is = refl; value_is = refl },
        (
          record {
            not_empty = omega arith;
            no_sep = ground arith;
            line_is = refl;
            value_is = refl;
          },
          (
            record {
              not_empty = omega arith;
              no_sep = ground arith;
              line_is = refl;
              value_is = refl;
            },
            tt,
          ),
        ),
      ),
    ),
  );
  lines_are = ground arith;
  body_is = (refl, (refl, tt));
}

parse_sip_packet-print_row_example : parse_sip_packet positions fresh line no_packet ≡ (
  none,
  record {
    event_time = codes "20201201080000";
    sip = codes "10.0.0.1";
    sport = pos 5060;
    dip = codes "10.0.0.2";
    dport = pos 5061;
    call_id = codes "c-1";
    cseq_method = codes "INVITE";
    req_status_code = pos 200;
    from_user = codes "1001";
    to_user = extract_legal_number positions (codes "8613912345678");
    user_agent = codes "phone";
  },
)
unfolding atoi extract_legal_number validate_number_string query_mobile_number_position has_prefix
parse_sip_packet-print_row_example =
    parse_sip_packet-print_row positions fresh line no_packet row call (pos 5060) (pos 5061) treated
      row_is refl call_is refl refl refl

extract_legal_number-Resolves_example :
    Resolves positions (extract_legal_number positions (codes "8613912345678"))
unfolding extract_legal_number validate_number_string query_mobile_number_position has_prefix
extract_legal_number-Resolves_example =
    extract_legal_number-Resolves positions (codes "8613912345678") (ground arith)

validate_fixed_number-query_fixed_number_position_example :
    (validate_fixed_number positions (codes "01012345678")
      ≡ is_ok (query_fixed_number_position positions (codes "01012345678")))
    × (validate_mobile_number positions (codes "01012345678")
        ≡ is_ok (query_mobile_number_position positions (codes "01012345678")))
validate_fixed_number-query_fixed_number_position_example =
    validate_fixed_number-query_fixed_number_position positions (codes "01012345678")
