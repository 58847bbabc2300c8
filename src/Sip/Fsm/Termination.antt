-- ===== src/Sip/Fsm/Termination.antt =====
-- The loop without fuel, as a relation, and that the fuelled loop is it.
use cdrrs.Base.{
  ℕ, zero, suc, ◌+◌, ◌-◌, ◌*◌, ◌<◌, ◌≡◌, refl, inl, inr, List, [], ◌∷◌, none, some, get_elem?,
  length, Option-cases, Bytes, arith,
}
use cdrrs.Sip.Fsm.{Field, Move, Step, look_at, run, fuel_for, parse_line}
use cdrrs.Sip.Fsm.Laws.{rank, rank-le, Progress}

-- `Runs step v p st out r`: from position `p`, state `st` and output `out` the loop on the line
-- `v` comes to its end after finitely many rounds, with the output `r`.
pub data Runs {Out : Type 0} (step : Step Out) (v : Bytes) : ℕ → Field → Out → Out → Type 0 where
  stop : {p : ℕ} {st : Field} {out : Out} → get_elem? v p ≡ none → Runs step v p st out out
  round :
      {p : ℕ} {st : Field} {out r : Out} (c : ℕ) (m : Move Out)
      → get_elem? v p ≡ some c
      → step st p c (look_at v p) out ≡ m
      → Runs step v (p + m.advance) m.state m.out r
      → Runs step v p st out r

some-lt {ℓ} : {A : Type ℓ} (xs : List A) (i : ℕ) (a : A) → get_elem? xs i ≡ some a → i < length xs
some-lt [] i a h = cc
some-lt (x ∷ xs) zero a h = omega arith
some-lt (x ∷ xs) (suc i) a h = omega (arith, some-lt xs i a h)

module _ {Out : Type 0} (step : Step Out) (progress : Progress step) (v : Bytes) where
  run-Runs :
      (fuel p : ℕ) (st : Field) (out : Out)
      → 2 * (length v - p) + rank st < fuel
      → Runs step v p st out (run step fuel v p st out)
  unfolding run
  run-Runs zero p st out h = absurd (omega arith)
  run-Runs (suc fuel) p st out h = elim (Option-cases (get_elem? v p)) [
    | inl e ↦ rw (e, run) (stop e)
    | inr (c, e) ↦
        rw (e, run)
          (let m = step st p c (look_at v p) out in
            let next : 2 * (length v - (p + m.advance)) + rank m.state < fuel =
              omega (arith, some-lt v p c e, rank-le m.state, progress st p c (look_at v p) out) in
            round c m e refl (run-Runs fuel (p + m.advance) m.state m.out next))
  ]

  -- On any line the loop comes to its end, and its output is that of `parse_line`.
  pub parse_line-Runs : (st : Field) (out : Out) → Runs step v 0 st out (parse_line step v st out)
  parse_line-Runs st out = run-Runs (fuel_for v) 0 st out (omega (arith, rank-le st))
