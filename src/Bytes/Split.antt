-- ===== src/Bytes/Split.antt =====
-- Splitting and joining are inverse.
use cdrrs.Base.{
  ℕ, zero, suc, ◌≤◌, ◌≡◌, refl, sym, ap, ◌∙◌, ◌≢◌, inl, inr, true, false, none, some, List, [], ◌∷◌,
  ◌++◌, ◌==◌, ==_iff, Option-cases, length, length-append, drop, drop-length, All, Bytes, arith,
}
use cdrrs.Bytes.{has_prefix, cut, split_n, split, join}

-- A text with the prefix is the prefix and the rest.
pub has_prefix-drop : (s p : Bytes) → has_prefix s p ≡ true → s ≡ p ++ drop (length p) s
unfolding has_prefix
has_prefix-drop s [] h = refl
has_prefix-drop [] (p ∷ ps) h = cc
has_prefix-drop (c ∷ s) (p ∷ ps) h = ground (arith, has_prefix-drop s ps)

pub has_prefix-append : (p s : Bytes) → has_prefix (p ++ s) p ≡ true
unfolding has_prefix
has_prefix-append [] [] = refl
has_prefix-append [] (c ∷ s) = refl
has_prefix-append (c ∷ p) s = ground (arith, has_prefix-append p s)

-- What `cut` finds is what it was given.
pub cut-eq-some : (sep s a b : Bytes) → cut sep s ≡ some (a, b) → s ≡ a ++ (sep ++ b)
unfolding cut
cut-eq-some [] [] a b h = ground arith
cut-eq-some (p ∷ ps) [] a b h = cc
cut-eq-some sep (c ∷ s) a b h = elim (Option-cases (cut sep s)) [
  | inl e ↦ ground (arith, has_prefix-drop (c ∷ s) sep)
  | inr ((x, y), e) ↦ ground (arith, has_prefix-drop (c ∷ s) sep, cut-eq-some sep s x y e)
]

-- A text with no first byte of the separator holds no separator.
abbrev pub Without : ℕ → Bytes → Type 0
Without t = All (λ c. (c == t) ≡ false)

pub cut-append :
    (t : ℕ) (ts a b : Bytes) → Without t a → cut (t ∷ ts) (a ++ ((t ∷ ts) ++ b)) ≡ some (a, b)
unfolding cut has_prefix
cut-append t ts [] b h = rw ((==_iff t t).1 refl, has_prefix-append ts b, drop-length ts b) refl
cut-append t ts (c ∷ a) b (hc, ha) = ground (arith, cut-append t ts a b ha)

pub cut-none : (t : ℕ) (ts a : Bytes) → Without t a → cut (t ∷ ts) a ≡ none
unfolding cut has_prefix
cut-none t ts [] h = refl
cut-none t ts (c ∷ a) (hc, ha) = ground (arith, cut-none t ts a ha)

join-cons :
    (sep s : Bytes) (ss : List Bytes) → ss ≢ [] → join sep (s ∷ ss) ≡ s ++ (sep ++ join sep ss)
unfolding join
join-cons sep s [] h = absurd (h refl)
join-cons sep s (t ∷ ss) h = refl

pub split_n-ne-nil : (n : ℕ) (sep s : Bytes) → split_n (suc n) sep s ≢ []
unfolding split_n
split_n-ne-nil zero sep s = ground arith
split_n-ne-nil (suc n) sep s = ground arith

pub join-split_n : (n : ℕ) (sep s : Bytes) → join sep (split_n (suc n) sep s) ≡ s
unfolding split_n join
join-split_n zero sep s = refl
join-split_n (suc n) sep s = elim (Option-cases (cut sep s)) [
  | inl e ↦ rw (e, split_n) refl
  | inr ((a, b), e) ↦
      rw (e, split_n)
        (join-cons sep a (split_n (suc n) sep b) (split_n-ne-nil n sep b)
          ∙ rw (join-split_n n sep b) (sym (cut-eq-some sep s a b e)))
]

-- Joining what was split gives the text back.
pub join-split : (sep s : Bytes) → join sep (split sep s) ≡ s
unfolding split
join-split sep s = join-split_n (length s) sep s

abbrev pub AllWithout : ℕ → List Bytes → Type 0
AllWithout t = All (Without t)

split_n-join :
    (n t : ℕ) (ts s : Bytes) (ss : List Bytes)
    → AllWithout t (s ∷ ss)
    → length ss ≤ n
    → split_n (suc n) (t ∷ ts) (join (t ∷ ts) (s ∷ ss)) ≡ s ∷ ss
unfolding split_n join
split_n-join zero t ts s [] h l = refl
split_n-join (suc n) t ts s [] h l = rw (cut-none t ts s h.0, split_n) refl
split_n-join zero t ts s (x ∷ ss) h l = absurd (omega arith)
split_n-join (suc n) t ts s (x ∷ ss) h l =
    rw (cut-append t ts s (join (t ∷ ts) (x ∷ ss)) h.0, split_n)
      (ap (◌∷◌ s) (split_n-join n t ts x ss h.1 (omega arith)))

length-join : (t : ℕ) (ts s : Bytes) (ss : List Bytes) → length ss ≤ length (join (t ∷ ts) (s ∷ ss))
unfolding join
length-join t ts s [] = omega arith
length-join t ts s (x ∷ ss) = omega (
  arith,
  length-join t ts x ss,
  length-append s ((t ∷ ts) ++ join (t ∷ ts) (x ∷ ss)),
  length-append ts (join (t ∷ ts) (x ∷ ss)),
)

-- Splitting what was joined gives the parts back, if none holds the first byte of the separator.
pub split-join :
    (t : ℕ) (ts s : Bytes) (ss : List Bytes)
    → AllWithout t (s ∷ ss)
    → split (t ∷ ts) (join (t ∷ ts) (s ∷ ss)) ≡ s ∷ ss
unfolding split
split-join t ts s ss h =
    split_n-join (length (join (t ∷ ts) (s ∷ ss))) t ts s ss h (length-join t ts s ss)
