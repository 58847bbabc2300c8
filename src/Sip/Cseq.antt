-- ===== src/Sip/Cseq.antt =====
-- model/prot/sip/sipCseq.go: the CSeq header.
use cdrrs.Base.{ℕ, [], ◌∷◌, ◌++◌, ◌==◌, if◌then◌else◌, Bytes}
use cdrrs.Sip.Fsm.{Field, field_id, field_method, Move, move, Look, run, parse_line, keep_src}

pub record SipCseq : Type 0 where
  pub id : Bytes
  pub method : Bytes
  pub src : Bytes

unfoldable pub step_cseq : Field → ℕ → ℕ → Look → SipCseq → Move SipCseq
step_cseq field_id p c look out =
    if c == b' '
    then move 1 field_method out
    else move 1 field_id (record out { id = out.id ++ c ∷ [] })
step_cseq field_method p c look out =
    move 1 field_method (record out { method = out.method ++ c ∷ [] })
step_cseq st p c look out = move 1 st out

-- "Init the output area", and the source line.
unfoldable pub clear_cseq : Bytes → SipCseq → SipCseq
clear_cseq v out = record out { id = []; method = []; src = if keep_src then v else [] }

unfoldable pub parse_sip_cseq : Bytes → SipCseq → SipCseq
unfolding step_cseq run clear_cseq
parse_sip_cseq v out = parse_line step_cseq v field_id (clear_cseq v out)
