-- ===== src/Bytes.antt =====
-- The functions of the Go packages bytes and strings that the program calls. A separator is never
-- empty where the program calls them.
pub mod Split
use mathlib.Core.List.{reverse}
use cdrrs.Base.{
  ℕ, zero, suc, ◌+◌, Bool, true, false, ◌&&◌, Option, none, some, List, [], ◌∷◌, ◌++◌, ◌==◌, leb,
  map, length, drop, if◌then◌else◌, Bytes,
}

-- `HasPrefix(s, p)`.
unfoldable pub has_prefix : Bytes → Bytes → Bool
has_prefix s [] = true
has_prefix [] (p ∷ ps) = false
has_prefix (c ∷ s) (p ∷ ps) = c == p && has_prefix s ps

abbrev pub cons_fst : ℕ → Option (Bytes × Bytes) → Option (Bytes × Bytes)
cons_fst c none = none
cons_fst c (some (a, b)) = some (c ∷ a, b)

-- The text in front of the first `sep` and the text behind it, as `Index` finds it.
unfoldable pub cut : Bytes → Bytes → Option (Bytes × Bytes)
unfolding has_prefix
cut sep [] = if has_prefix [] sep then some ([], []) else none
cut sep (c ∷ s) =
    let rest = cons_fst c (cut sep s) in
    if has_prefix (c ∷ s) sep then some ([], drop (length sep) (c ∷ s)) else rest

-- `SplitN(s, sep, n)` for `n > 0`.
unfoldable pub split_n : ℕ → Bytes → Bytes → List Bytes
unfolding cut
split_n zero sep s = []
split_n (suc zero) sep s = s ∷ []
split_n (suc (suc n)) sep s = elim (cut sep s) [
  | none ↦ s ∷ []
  | some (a, b) ↦ a ∷ split_n (suc n) sep b
]

-- `Split(s, sep)`: there are at most as many separators as bytes.
unfoldable pub split : Bytes → Bytes → List Bytes
unfolding split_n
split sep s = split_n (suc (length s)) sep s

unfoldable pub join : Bytes → List Bytes → Bytes
join sep [] = []
join sep (s ∷ []) = s
join sep (s ∷ t ∷ ss) = s ++ (sep ++ join sep (t ∷ ss))

-- `ReplaceAll(s, old, new)`.
unfoldable pub replace_all : Bytes → Bytes → Bytes → Bytes
unfolding split join
replace_all s old new = join new (split old s)

-- `Replace(s, old, new, 1)`.
unfoldable pub replace_first : Bytes → Bytes → Bytes → Bytes
unfolding cut
replace_first s old new = elim (cut old s) [ none ↦ s | some (a, b) ↦ a ++ (new ++ b) ]

-- The encodings of the white space that `TrimSpace` removes.
abbrev pub spaces : List Bytes
spaces =
    (9 ∷ [])
    ∷ (10 ∷ [])
    ∷ (11 ∷ [])
    ∷ (12 ∷ [])
    ∷ (13 ∷ [])
    ∷ (32 ∷ [])
    ∷ (0xC2 ∷ 0x85 ∷ [])
    ∷ (0xC2 ∷ 0xA0 ∷ [])
    ∷ (0xE1 ∷ 0x9A ∷ 0x80 ∷ [])
    ∷ (0xE2 ∷ 0x80 ∷ 0x80 ∷ [])
    ∷ (0xE2 ∷ 0x80 ∷ 0x81 ∷ [])
    ∷ (0xE2 ∷ 0x80 ∷ 0x82 ∷ [])
    ∷ (0xE2 ∷ 0x80 ∷ 0x83 ∷ [])
    ∷ (0xE2 ∷ 0x80 ∷ 0x84 ∷ [])
    ∷ (0xE2 ∷ 0x80 ∷ 0x85 ∷ [])
    ∷ (0xE2 ∷ 0x80 ∷ 0x86 ∷ [])
    ∷ (0xE2 ∷ 0x80 ∷ 0x87 ∷ [])
    ∷ (0xE2 ∷ 0x80 ∷ 0x88 ∷ [])
    ∷ (0xE2 ∷ 0x80 ∷ 0x89 ∷ [])
    ∷ (0xE2 ∷ 0x80 ∷ 0x8A ∷ [])
    ∷ (0xE2 ∷ 0x80 ∷ 0xA8 ∷ [])
    ∷ (0xE2 ∷ 0x80 ∷ 0xA9 ∷ [])
    ∷ (0xE2 ∷ 0x80 ∷ 0xAF ∷ [])
    ∷ (0xE2 ∷ 0x81 ∷ 0x9F ∷ [])
    ∷ (0xE3 ∷ 0x80 ∷ 0x80 ∷ [])
    ∷ []

-- The length of the first of the texts that `s` starts with, 0 if there is none.
prefix_length : List Bytes → Bytes → ℕ
prefix_length [] s = 0
prefix_length (p ∷ ps) s = if has_prefix s p then length p else prefix_length ps s

-- Each round removes at least a byte.
trim_prefixes : List Bytes → ℕ → Bytes → Bytes
trim_prefixes ps zero s = s
trim_prefixes ps (suc fuel) s =
    let k = prefix_length ps s in
    let rest = trim_prefixes ps fuel (drop k s) in if k == 0 then s else rest

-- `TrimSpace`: from the left, then from the right.
unfoldable pub trim_space : Bytes → Bytes
unfolding has_prefix prefix_length trim_prefixes
trim_space s =
    let left = trim_prefixes spaces (length s) s in
    reverse (trim_prefixes (map reverse spaces) (length left) (reverse left))

lower : ℕ → ℕ
lower c = if leb b'A' c && leb c b'Z' then c + 32 else c

-- `ToLower`, as far as a comparison with an ASCII text with no 'k' can tell: of the code points
-- beyond ASCII, U+0130 alone goes to such a byte, to 'i'.
unfoldable pub to_lower : Bytes → Bytes
unfolding lower
to_lower [] = []
to_lower (a ∷ []) = lower a ∷ []
to_lower (a ∷ b ∷ s) =
    let wide = b'i' ∷ to_lower s in
    let narrow = lower a ∷ to_lower (b ∷ s) in if a == 0xC4 && b == 0xB0 then wide else narrow
