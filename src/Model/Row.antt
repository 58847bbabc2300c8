-- ===== src/Model/Row.antt =====
-- The rows of the data files, in model/sippkt.go: `pretreatment`, `split` and `RawTextData`.
pub mod RoundTrip
use cdrrs.Base.{
  ℕ, ◌-◌, ◌||◌, Bool, true, false, not, List, [], ◌∷◌, Option, none, some, ◌==◌, if◌then◌else◌,
  codes, length, drop, take, is_empty, Bytes,
}
use cdrrs.Bytes.{has_prefix, split_n, replace_all}

abbrev pub delimiter : Bytes
delimiter = codes "\",\""

abbrev pub old_line_break : Bytes
old_line_break = codes "\\0D\\0A"

abbrev pub new_line_break : Bytes
new_line_break = codes "\r\n"

abbrev pub old_double_quotes : Bytes
old_double_quotes = codes "\"\""

abbrev pub new_double_quotes : Bytes
new_double_quotes = codes "\""

abbrev pub sip_status_200_ok_prefix : Bytes
sip_status_200_ok_prefix = codes "SIP/2.0 200 OK"

unfoldable pub pretreatment : Bytes → Bytes
unfolding replace_all
pretreatment s =
    replace_all (replace_all s old_line_break new_line_break) old_double_quotes new_double_quotes

any_empty : List Bytes → Bool
any_empty [] = false
any_empty (val ∷ ss) = is_empty val || any_empty ss

-- `ss[0] = ss[0][1:]` and `ss[6] = ss[6][:len(ss[6])-1]`.
strip_quotes : List Bytes → List Bytes
strip_quotes (a ∷ b ∷ c ∷ d ∷ e ∷ f ∷ g ∷ []) =
    drop 1 a ∷ b ∷ c ∷ d ∷ e ∷ f ∷ take (length g - 1) g ∷ []
strip_quotes ss = ss

-- No parts (nil) unless there are seven and none is empty.
unfoldable pub split : Bytes → List Bytes
unfolding split_n any_empty strip_quotes
split s =
    let ss = split_n 7 delimiter s in
    if not (length ss == 7) || any_empty ss then [] else strip_quotes ss

pub record RawTextData : Type 0 where
  pub event_time : Bytes
  pub saddr_v4 : Bytes
  pub sport : Bytes
  pub daddr_v4 : Bytes
  pub dport : Bytes
  pub param_content : Bytes

pub data PacketError : Type 0 where
  invalid_raw_text_data invalid_sip_packet : PacketError

fill : List Bytes → RawTextData → Option PacketError × RawTextData
fill (a ∷ b ∷ c ∷ d ∷ e ∷ f ∷ g ∷ ss) rtd =
    if not (has_prefix g sip_status_200_ok_prefix) then (some invalid_sip_packet, rtd) else (
      none,
      record {
        event_time = a;
        saddr_v4 = c;
        sport = d;
        daddr_v4 = e;
        dport = f;
        param_content = g;
      },
    )
fill ss rtd = (some invalid_raw_text_data, rtd)

-- `(*RawTextData).parse`: the error, and the receiver.
unfoldable pub parse_raw : Bytes → RawTextData → Option PacketError × RawTextData
unfolding fill has_prefix
parse_raw s rtd = fill (split (pretreatment s)) rtd
