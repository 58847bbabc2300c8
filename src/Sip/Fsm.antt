-- ===== src/Sip/Fsm.antt =====
-- The loop that every parser of a header line runs: `for pos < len(v) { switch state { … } }`.
-- A parser gives the body of the loop as a step. The step is told the position, the byte there
-- and how to look at the bytes around it, and says how far the position moves, the next state and
-- the new output, so that one loop and one set of its laws serve all the parsers.
pub mod Laws
pub mod Termination
use cdrrs.Base.{
  Bool, true, ℕ, zero, suc, ◌+◌, ◌*◌, List, [], ◌∷◌, Option, none, some, get_elem?, length, take,
  drop, ℤ, pos, Bytes,
}
use cdrrs.Sip.Slices.{get_string}

-- The `FIELD_` constants.
pub data Field : Type 0 where
  field_null field_base field_value field_name field_nameq field_user field_host : Field
  field_port field_tag field_id field_method field_tran field_branch field_rport : Field
  field_maddr field_ttl field_rec field_expires field_q field_usertype field_status : Field
  field_statusdesc field_addrtype field_connaddr field_media field_proto field_fmt : Field
  field_cat field_ignore : Field

-- What the body of the loop does: `pos = pos + advance`, the state and the output.
pub record Move (Out : Type 0) : Type 0 where
  pub advance : ℕ
  pub state : Field
  pub out : Out

abbrev pub move : {Out : Type 0} → ℕ → Field → Out → Move Out
move k st out = record { advance = k; state = st; out = out }

-- The package variable `keep_src`, which nothing writes.
abbrev pub keep_src : Bool
keep_src = true

-- `look k n` is `getString(v, pos+k, pos+k+n)`.
abbrev pub Look : Type 0
Look = ℕ → ℕ → Bytes

abbrev pub Step : Type 0 → Type 0
Step Out = Field → ℕ → ℕ → Look → Out → Move Out

abbrev pub look_at : Bytes → ℕ → Look
look_at v p k n = get_string v (pos (p + k)) (pos (p + k + n))

-- The loop from position `p`. The fuel bounds the number of rounds.
unfoldable pub run : {Out : Type 0} → Step Out → ℕ → Bytes → ℕ → Field → Out → Out
run step zero v p st out = out
run step (suc fuel) v p st out = elim (get_elem? v p) [
  | none ↦ out
  | some c ↦ let m = step st p c (look_at v p) out in run step fuel v (p + m.advance) m.state m.out
]

-- A round that does not move the position goes to a state that does, so two rounds for each byte
-- are enough.
abbrev pub fuel_for : Bytes → ℕ
fuel_for v = 2 * length v + 2

-- The whole loop on a line.
abbrev pub parse_line : {Out : Type 0} → Step Out → Bytes → Field → Out → Out
parse_line step v st out = run step (fuel_for v) v 0 st out
