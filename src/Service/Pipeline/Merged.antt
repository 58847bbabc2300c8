-- ===== src/Service/Pipeline/Merged.antt =====
-- Counting over merges.
use cdrrs.Base.{ℕ, ◌+◌, ◌≡◌, refl, sym, ap, ◌∙◌, List, [], ◌∷◌, ◌++◌, All, arith}
use mathlib.Core.Path.{subst}
use cdrrs.Service.Pipeline.{Merge, ends, takes}

-- The sum of a measure over streams.
unfoldable pub total : {A : Type 0} → (List A → ℕ) → List (List A) → ℕ
total f [] = 0
total f (xs ∷ xss) = f xs + total f xss

total-append :
    {A : Type 0} (f : List A → ℕ) (xss yss : List (List A))
    → total f (xss ++ yss) ≡ total f xss + total f yss
unfolding total
total-append f [] yss = omega arith
total-append f (xs ∷ xss) yss = omega (arith, total-append f xss yss)

total_none :
    {A : Type 0} (f : List A → ℕ) (xss : List (List A))
    → f [] ≡ 0
    → All (λ (xs : List A). xs ≡ []) xss
    → total f xss ≡ 0
unfolding total
total_none f [] z h = refl
total_none f (xs ∷ xss) z (e, h) = omega (arith, ap f e ∙ z, total_none f xss z h)

-- A measure that adds up over an element and its list is kept by every merge.
pub total-Merge :
    {A : Type 0} (f : List A → ℕ) (g : A → ℕ) {xss : List (List A)} {l : List A}
    → f [] ≡ 0
    → ((x : A) (xs : List A) → f (x ∷ xs) ≡ g x + f xs)
    → Merge xss l
    → f l ≡ total f xss
unfolding total
total-Merge f g {xss} z c (ends h) = z ∙ sym (total_none f xss z h)
total-Merge f g z c (takes {l = l} before x xs behind e m) = omega (
  arith,
  ap (total f) e,
  c x l,
  c x xs,
  total-Merge f g z c m,
  total-append f before (xs ∷ behind),
  total-append f before ((x ∷ xs) ∷ behind),
)

-- What holds of all streams holds of the merge.
pub All-Merge :
    {A : Type 0} (P : A → Type 0) {xss : List (List A)} {l : List A}
    → All (All P) xss
    → Merge xss l
    → All P l
All-Merge P h (ends e) = tt
All-Merge {A = A} P h (takes before x xs behind e m) =
    let (p, rest) = split before (subst (All (All P)) e h) in (p, All-Merge P rest m)
  where
    split :
        (before : List (List A))
        → All (All P) (before ++ (x ∷ xs) ∷ behind)
        → P x × All (All P) (before ++ xs ∷ behind)
    split [] ((p, ps), k) = (p, (ps, k))
    split (b ∷ bs) (k, ks) = let (p, rest) = split bs ks in (p, (k, rest))
