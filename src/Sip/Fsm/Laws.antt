-- ===== src/Sip/Fsm/Laws.antt =====
-- The loop over positions as a loop over the bytes that are left, with no fuel to mind.
use cdrrs.Base.{
  ℕ, zero, suc, ◌+◌, ◌*◌, ◌≤◌, ◌<◌, ◌≡◌, refl, sym, ap, ◌∙◌, ◌⊎◌, [], ◌∷◌, ◌++◌, append-nil,
  append_assoc, none, some, get_elem?, get_elem?-drop, length, take, drop, drop-drop, length-drop,
  All, Bytes, arith,
}
use mathlib.Core.Path.{fun_ext}
use cdrrs.Sip.Slices.{get_string, bounded_slice-take}
use cdrrs.Sip.Fsm.{
  Field, field_null, field_base, Move, Look, Step, look_at, run, fuel_for, parse_line,
}

-- The states that a round may leave without moving the position.
abbrev pub rank : Field → ℕ
rank field_null = 1
rank field_base = 1
rank _ = 0

-- A round moves the position, or leaves a state of rank 1 for one of rank 0.
abbrev pub Moves : {Out : Type 0} → Field → Move Out → Type 0
Moves st m = (1 ≤ m.advance) ⊎ (rank m.state < rank st)

abbrev pub Progress : {Out : Type 0} → Step Out → Type 0
Progress {Out} step =
    (st : Field) (p c : ℕ) (look : Look) (out : Out) → Moves st (step st p c look out)

-- The bytes around the position, when `rest` is what is left of the line.
abbrev pub look_in : Bytes → Look
look_in rest k n = take n (drop k rest)

module _ {Out : Type 0} (step : Step Out) where
  scan : ℕ → ℕ → Bytes → Field → Out → Out
  scan zero p rest st out = out
  scan (suc fuel) p [] st out = out
  scan (suc fuel) p (c ∷ cs) st out =
      let m = step st p c (look_in (c ∷ cs)) out in
      scan fuel (p + m.advance) (drop m.advance (c ∷ cs)) m.state m.out

  look_at-drop : (v : Bytes) (p : ℕ) → look_at v p ≡ look_in (drop p v)
  unfolding get_string
  look_at-drop v p = fun_ext λ k. fun_ext λ n.
      bounded_slice-take v (p + k) (p + k + n) n refl
      ∙ ap (take n) (sym (drop-drop k p (p + k) v (omega arith)))

  run-scan_round :
      (fuel : ℕ) (v : Bytes) (p : ℕ) (st : Field) (out : Out) (rest : Bytes)
      → drop p v ≡ rest
      → ((q : ℕ) (t : Field) (o : Out) → run step fuel v q t o ≡ scan fuel q (drop q v) t o)
      → run step (suc fuel) v p st out ≡ scan (suc fuel) p rest st out
  unfolding run scan
  run-scan_round fuel v p st out [] e ih =
      let h : get_elem? v p ≡ none = get_elem?-drop v p ∙ ap (λ l. get_elem? l 0) e in
      rw (h, run) refl
  run-scan_round fuel v p st out (c ∷ cs) e ih =
      let h : get_elem? v p ≡ some c = get_elem?-drop v p ∙ ap (λ l. get_elem? l 0) e in
      let near : look_at v p ≡ look_in (c ∷ cs) = look_at-drop v p ∙ ap look_in e in
      let m = step st p c (look_in (c ∷ cs)) out in
      let far : drop (p + m.advance) v ≡ drop m.advance (c ∷ cs) =
        sym (drop-drop m.advance p (p + m.advance) v (omega arith)) ∙ ap (drop m.advance) e in
      rw (h, run)
        (rw near (
          ih (p + m.advance) m.state m.out
          ∙ ap (λ l. scan fuel (p + m.advance) l m.state m.out) far))

  -- Reading at positions is reading what is left.
  run-scan :
      (fuel : ℕ) (v : Bytes) (p : ℕ) (st : Field) (out : Out)
      → run step fuel v p st out ≡ scan fuel p (drop p v) st out
  unfolding run scan
  run-scan zero v p st out = refl
  run-scan (suc fuel) v p st out =
      run-scan_round fuel v p st out (drop p v) refl (λ q t o. run-scan fuel v q t o)

pub rank-le : (st : Field) → rank st ≤ 1
rank-le field_null = omega arith
rank-le _ = omega arith

module _ {Out : Type 0} (step : Step Out) (progress : Progress step) where
  scan-fuel :
      (f g p : ℕ) (rest : Bytes) (st : Field) (out : Out)
      → 2 * length rest + rank st < f
      → 2 * length rest + rank st < g
      → scan step f p rest st out ≡ scan step g p rest st out
  unfolding scan
  scan-fuel zero g p rest st out hf hg = absurd (omega arith)
  scan-fuel (suc f) zero p rest st out hf hg = absurd (omega arith)
  scan-fuel (suc f) (suc g) p [] st out hf hg = refl
  scan-fuel (suc f) (suc g) p (c ∷ cs) st out hf hg =
      let m = step st p c (look_in (c ∷ cs)) out in
      let shorter : 2 * length (drop m.advance (c ∷ cs)) + rank m.state
          < 2 * length (c ∷ cs) + rank st =
        omega (
          arith,
          length-drop m.advance (c ∷ cs),
          rank-le m.state,
          progress st p c (look_in (c ∷ cs)) out,
        ) in
      scan-fuel f g (p + m.advance) (drop m.advance (c ∷ cs)) m.state m.out (omega arith)
        (omega arith)

  -- The loop on what is left of a line, with the fuel of a whole line.
  pub scan_all : ℕ → Bytes → Field → Out → Out
  scan_all p rest st out = scan step (fuel_for rest) p rest st out

  pub scan_all-nil : (p : ℕ) (st : Field) (out : Out) → scan_all p [] st out ≡ out
  unfolding scan_all scan
  scan_all-nil p st out = refl

  -- One round.
  pub scan_all-cons :
      (p c : ℕ) (cs : Bytes) (st : Field) (out : Out) {m : Move Out}
      → step st p c (look_in (c ∷ cs)) out ≡ m
      → scan_all p (c ∷ cs) st out
        ≡ scan_all (p + m.advance) (drop m.advance (c ∷ cs)) m.state m.out
  unfolding scan_all scan
  scan_all-cons p c cs st out {m} e =
      let moves : Moves st m = rw e at (progress st p c (look_in (c ∷ cs)) out) in
      scan-fuel (fuel_for (c ∷ cs)) (suc (2 * length cs + 3)) p (c ∷ cs) st out
        (omega (arith, rank-le st)) (omega (arith, rank-le st))
      ∙ rw (e, scan)
          (scan-fuel (2 * length cs + 3) (fuel_for (drop m.advance (c ∷ cs))) (p + m.advance)
            (drop m.advance (c ∷ cs)) m.state m.out
            (omega (arith, length-drop m.advance (c ∷ cs), rank-le m.state, rank-le st, moves))
            (omega (arith, rank-le m.state)))

  pub parse_line-scan_all :
      (v : Bytes) (st : Field) (out : Out) → parse_line step v st out ≡ scan_all 0 v st out
  unfolding scan_all
  parse_line-scan_all v st out = run-scan step (fuel_for v) v 0 st out

  -- A state that adds each of the bytes `u` to a field, which `put` writes, takes all of them.
  pub scan_all-append :
      (ok : ℕ → Type 0) (put : Bytes → Out) (st : Field)
      → ((p c : ℕ) (look : Look) (a : Bytes)
          → ok c
          → step st p c look (put a) ≡ record { advance = 1; state = st; out = put (a ++ c ∷ []) })
      → (u rest a : Bytes) (p : ℕ) → All ok u
      → scan_all p (u ++ rest) st (put a) ≡ scan_all (p + length u) rest st (put (a ++ u))
  scan_all-append ok put st takes [] rest a p h =
      let e : p + 0 ≡ p = omega arith in rw (e, append-nil a) refl
  scan_all-append ok put st takes (c ∷ u) rest a p (hc, hu) =
      let e : p + 1 + length u ≡ p + suc (length u) = omega arith in
      scan_all-cons p c (u ++ rest) st (put a) (takes p c (look_in (c ∷ (u ++ rest))) a hc)
      ∙ scan_all-append ok put st takes u rest (a ++ c ∷ []) (p + 1) hu
      ∙ rw (e, append_assoc a (c ∷ []) u) refl

  -- The same up to a byte `t` that ends the field.
  pub scan_all-until :
      (ok : ℕ → Type 0) (put : Bytes → Out) (st st' : Field) (t : ℕ)
      → ((p c : ℕ) (look : Look) (a : Bytes)
          → ok c
          → step st p c look (put a) ≡ record { advance = 1; state = st; out = put (a ++ c ∷ []) })
      → ((p : ℕ) (look : Look) (a : Bytes)
          → step st p t look (put a) ≡ record { advance = 1; state = st'; out = put a })
      → (u rest a : Bytes) (p : ℕ) → All ok u
      → scan_all p (u ++ t ∷ rest) st (put a) ≡ scan_all (p + length u + 1) rest st' (put (a ++ u))
  scan_all-until ok put st st' t takes ends u rest a p h =
      scan_all-append ok put st takes u (t ∷ rest) a p h
      ∙ scan_all-cons (p + length u) t rest st (put (a ++ u))
          (ends (p + length u) (look_in (t ∷ rest)) (a ++ u))

-- Two loops whose rounds agree under `h` agree under `h`.
module _ {Out Out' : Type 0} (step : Step Out) (step' : Step Out') (h : Out → Out') where
  abbrev pub map_move : Move Out → Move Out'
  map_move m = record { advance = m.advance; state = m.state; out = h m.out }

  abbrev pub Agree : Type 0
  Agree =
      (st : Field) (p c : ℕ) (cs : Bytes) (out : Out)
      → step' st p c (look_in (c ∷ cs)) (h out) ≡ map_move (step st p c (look_in (c ∷ cs)) out)

  scan-map :
      Agree
      → (fuel p : ℕ) (rest : Bytes) (st : Field) (out : Out)
      → scan step' fuel p rest st (h out) ≡ h (scan step fuel p rest st out)
  unfolding scan
  scan-map agree zero p rest st out = refl
  scan-map agree (suc fuel) p [] st out = refl
  scan-map agree (suc fuel) p (c ∷ cs) st out =
      let m = step st p c (look_in (c ∷ cs)) out in
      ap
        (λ (x : Move Out'). scan step' fuel (p + x.advance) (drop x.advance (c ∷ cs)) x.state x.out)
        (agree st p c cs out)
      ∙ scan-map agree fuel (p + m.advance) (drop m.advance (c ∷ cs)) m.state m.out

  pub parse_line-map :
      Agree
      → (v : Bytes) (st : Field) (out : Out)
      → parse_line step' v st (h out) ≡ h (parse_line step v st out)
  parse_line-map agree v st out =
      run-scan step' (fuel_for v) v 0 st (h out)
      ∙ scan-map agree (fuel_for v) 0 v st out
      ∙ ap h (sym (run-scan step (fuel_for v) v 0 st out))
