-- ===== src/Sip/Address/From.antt =====
-- The From parser against the To parser.
use cdrrs.Base.{
  Bool-cases, ==_iff, ◌==◌, false, inl, inr, ℕ, ◌≡◌, refl, ap, ◌∙◌, [], ◌∷◌, codes, Bytes, arith,
}
use cdrrs.Sip.Fsm.{field_base, Look}
use cdrrs.Sip.Fsm.Laws.{look_in, map_move, Agree, parse_line-map}
use cdrrs.Sip.From.{SipFrom, step_from, parse_sip_from}
use cdrrs.Sip.To.{SipTo, step_to, clear_to, parse_sip_to}
use cdrrs.Sip.Address.{Address, print_address, IsPrintable, parse_sip_to-print_address}

-- The fields of a `sipTo`, as a `sipFrom`.
abbrev pub as_from : SipTo → SipFrom
as_from o = record {
  uri_type = o.uri_type;
  name = o.name;
  user = o.user;
  host = o.host;
  port = o.port;
  tag = o.tag;
  user_type = o.user_type;
  src = o.src;
}

-- Off '=' the order of the two tests makes no difference.
base_agree :
    (p c : ℕ) (look : Look) (out : SipTo)
    → (c == b'=') ≡ false
    → step_from field_base p c look (as_from out)
      ≡ map_move step_to step_from as_from (step_to field_base p c look out)
unfolding step_to step_from
base_agree p c look out h = ground arith

-- At '=' no keyword starts.
base_agree_equals :
    (p c : ℕ) (cs : Bytes) (out : SipTo)
    → c ≡ b'='
    → step_from field_base p c (look_in (c ∷ cs)) (as_from out)
      ≡ map_move step_to step_from as_from (step_to field_base p c (look_in (c ∷ cs)) out)
unfolding step_to step_from
base_agree_equals p c cs out h = rw h refl

step_from-step_to : Agree step_to step_from as_from
unfolding step_to step_from
step_from-step_to field_base p c cs out = elim (Bool-cases (c == b'=')) [
  | inl e ↦ base_agree_equals p c cs out ((==_iff c b'=').0 e)
  | inr n ↦ base_agree p c (look_in (c ∷ cs)) out n
]
step_from-step_to _ p c cs out = ground arith

-- The two parsers read the same parts out of every line, although they test for '=' and for
-- "user=" in another order, and whatever their outputs held before.
pub parse_sip_from-parse_sip_to :
    (v : Bytes) (from : SipFrom) (to : SipTo) → parse_sip_from v from ≡ as_from (parse_sip_to v to)
unfolding parse_sip_from parse_sip_to
parse_sip_from-parse_sip_to v from to =
    parse_line-map step_to step_from as_from step_from-step_to v field_base (clear_to v to)

-- So a From header that carries a printable address is read back part by part too.
pub parse_sip_from-print_address :
    (a : Address) (out : SipFrom)
    → IsPrintable a
    → parse_sip_from (print_address a) out ≡ record {
      uri_type = codes "sip";
      name = a.name;
      user = a.user;
      host = a.host;
      port = a.port;
      tag = a.tag;
      user_type = [];
      src = print_address a;
    }
parse_sip_from-print_address a out h =
    parse_sip_from-parse_sip_to (print_address a) out empty
    ∙ ap as_from (parse_sip_to-print_address a empty h)
  where
    empty : SipTo
    empty = record {
      uri_type = [];
      name = [];
      user = [];
      host = [];
      port = [];
      tag = [];
      user_type = [];
      src = [];
    }
