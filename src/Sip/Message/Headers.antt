-- ===== src/Sip/Message/Headers.antt =====
-- What a header line does to the message.
use cdrrs.Base.{
  drop-drop, lt→ltb, ◌≤◌, ◌-◌, ◌+◌, ◌≡◌, refl, sym, ap, ◌∙◌, false, ◌||◌, ◌∷◌, ◌++◌, ◌==◌, All,
  length, drop, take-length, drop-length, slice, Bytes, arith,
}
use cdrrs.Bytes.{trim_space, to_lower}
use cdrrs.Sip.Slices.{index_sep-append}
use cdrrs.Sip.Message.{SipMsg, parse_header, parse_line}

-- A header line: a name, a colon, and what stands behind it. The name holds no separator, and
-- neither the line nor its value starts or ends in white space.
pub record Header : Type 0 where
  pub name : Bytes
  pub raw : Bytes
  pub value : Bytes

abbrev pub print_header : Header → Bytes
print_header h = h.name ++ b':' ∷ h.raw

pub record IsHeader (h : Header) : Type 0 where
  pub not_empty : 1 ≤ length h.name
  pub no_sep : All (λ c. (c == b':' || c == b'=') ≡ false) h.name
  pub line_is : trim_space (print_header h) ≡ print_header h
  pub value_is : trim_space h.raw ≡ h.value

slice-length : (xs ys : Bytes) → slice (xs ++ ys) 0 (length xs) ≡ xs
slice-length xs ys = let e : length xs - 0 ≡ length xs = omega arith in rw e (take-length xs ys)

drop_colon : (name raw : Bytes) → drop (length name + 1) (name ++ b':' ∷ raw) ≡ raw
drop_colon name raw =
    sym (drop-drop 1 (length name) (length name + 1) (name ++ b':' ∷ raw) (omega arith))
    ∙ ap (drop 1) (drop-length name (b':' ∷ raw))

-- A header line goes to the switch as its name in lower case and its value.
pub parse_line-print_header :
    (h : Header) (out : SipMsg)
    → IsHeader h
    → parse_line (print_header h) out ≡ parse_header (to_lower h.name) h.value out
unfolding parse_line
parse_line-print_header h out v =
    rw (v.line_is, index_sep-append h.name h.raw v.no_sep, parse_line)
      (rw (lt→ltb 0 (length h.name) v.not_empty)
        (rw (slice-length h.name (b':' ∷ h.raw), drop_colon h.name h.raw, v.value_is) refl))
