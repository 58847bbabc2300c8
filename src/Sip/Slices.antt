-- ===== src/Sip/Slices.antt =====
-- The slicing helpers of model/prot/sip/sip.go.
use cdrrs.Base.{
  suc, refl, All, ◌++◌, ℕ, ◌+◌, ◌-◌, ◌≡◌, false, ◌||◌, inl, inr, [], ◌∷◌, ℤ, pos, negsuc, ltb, ◌==◌,
  if◌then◌else◌, Bool-cases, ltb→lt, length, take, drop, slice, drop-all, take-all, length-drop,
  take-nil, Bytes, arith,
}

-- `if x < 0 { x = 0 }`.
unfoldable pub clamp : ℤ → ℕ
clamp (pos n) = n
clamp (negsuc n) = 0

-- The bounds check that `getString` and `getBytes` share, on bounds that are not negative.
unfoldable pub bounded_slice : Bytes → ℕ → ℕ → Bytes
bounded_slice sl from to =
    if ltb (length sl) from || ltb to from
    then []
    else if ltb (length sl) to
    then drop from sl
    else slice sl from to

unfoldable pub get_string : Bytes → ℤ → ℤ → Bytes
unfolding clamp bounded_slice
get_string sl from to = bounded_slice sl (clamp from) (clamp to)

unfoldable pub get_bytes : Bytes → ℤ → ℤ → Bytes
unfolding clamp bounded_slice
get_bytes sl from to = bounded_slice sl (clamp from) (clamp to)

-- `indexSep`: the index and the kind of the first separator, or -1 and a space.
index_sep_from : Bytes → ℕ → ℤ × ℕ
index_sep_from [] i = (negsuc 0, b' ')
index_sep_from (c ∷ s) i =
    let rest = index_sep_from s (i + 1) in
    if c == b':' then (pos i, b':') else if c == b'=' then (pos i, b'=') else rest

unfoldable pub index_sep : Bytes → ℤ × ℕ
unfolding index_sep_from
index_sep s = index_sep_from s 0

not-ltb : (a n : ℕ) → ltb (a + n) a ≡ false
not-ltb a n = ground arith

-- Read at `a` bytes and for `n` bytes, the check gives what is left of those `n` bytes.
pub bounded_slice-take :
    (sl : Bytes) (a b n : ℕ) → b ≡ a + n → bounded_slice sl a b ≡ take n (drop a sl)
unfolding bounded_slice
bounded_slice-take sl a b n e = elim (Bool-cases (ltb (length sl) a)) [
  | inl past ↦
      rw past (rw (drop-all a sl (omega (arith, ltb→lt _ _ past))) (rw (take-nil {A = ℕ} n)))
  | inr within ↦
      rw (within, e, not-ltb a n)
        (elim (Bool-cases (ltb (length sl) (a + n))) [
          | inl long ↦
              rw (long, take-all n (drop a sl) (omega (arith, ltb→lt _ _ long, length-drop a sl)))
          | inr short ↦ let k : a + n - a ≡ n = omega arith in rw (short, k)
        ])
]

index_sep_from-append :
    (name rest : Bytes) (i : ℕ)
    → All (λ c. (c == b':' || c == b'=') ≡ false) name
    → index_sep_from (name ++ b':' ∷ rest) i ≡ (pos (i + length name), b':')
unfolding index_sep_from
index_sep_from-append [] rest i h = let e : i + 0 ≡ i = omega arith in rw e refl
index_sep_from-append (c ∷ name) rest i (hc, h) =
    let e : i + 1 + length name ≡ i + suc (length name) = omega arith in
    ground (arith, index_sep_from-append name rest (i + 1) h, e)

-- The first separator of a header line is the colon behind its name.
pub index_sep-append :
    (name rest : Bytes)
    → All (λ c. (c == b':' || c == b'=') ≡ false) name
    → index_sep (name ++ b':' ∷ rest) ≡ (pos (length name), b':')
unfolding index_sep
index_sep-append name rest h =
    let e : 0 + length name ≡ length name = omega arith in
    rw e at (index_sep_from-append name rest 0 h)
