-- ===== src/Common/Text.antt =====
-- Go's `strings` functions on the code points of a text, which are its bytes where it is ASCII.
use Prim.Native.Nat.{ℕ, ◌+◌}
use Prim.Native.Char.{code}
use Prim.Native.String.{String}
use mathlib.Core.Path.{◌≡◌, refl}
use mathlib.Core.Bool.{Bool, true, false, ◌&&◌, ◌||◌}
use mathlib.Core.Option.{Option, none, some}
use mathlib.Core.List.{List, [], ◌∷◌, ◌++◌, map, reverse}
use native.Mathlib.Omega.{arith}
use toggle_web_baker.Common.Tests.{leb, ◌==◌, if◌then◌else◌}

abbrev pub Codes : Type 0
Codes = List ℕ

abbrev pub codes : String → Codes
codes String.[] = []
codes (String.◌∷◌ c s) = code c ∷ codes s

-- `==` on texts.
abbrev pub codes_eq : Codes → Codes → Bool
codes_eq [] [] = true
codes_eq [] (c ∷ t) = false
codes_eq (c ∷ s) [] = false
codes_eq (c ∷ s) (d ∷ t) = c == d && codes_eq s t

-- `strings.HasPrefix(s, p)`.
abbrev pub has_prefix : Codes → Codes → Bool
has_prefix s [] = true
has_prefix [] (d ∷ p) = false
has_prefix (c ∷ s) (d ∷ p) = c == d && has_prefix s p

-- `strings.Contains(s, p)`.
abbrev pub contains : Codes → Codes → Bool
contains [] p = has_prefix [] p
contains (c ∷ s) p = has_prefix (c ∷ s) p || contains s p

-- `strings.ToLower` on ASCII letters.
abbrev pub lower : ℕ → ℕ
lower c = if leb b'A' c && leb c b'Z' then c + 32 else c

abbrev pub to_lower : Codes → Codes
to_lower = map lower

-- The ASCII blanks that `strings.TrimSpace` strips: tab to carriage return, and the space.
abbrev pub is_space : ℕ → Bool
is_space c = (leb 9 c && leb c 13) || c == 32

abbrev pub trim_left : Codes → Codes
trim_left [] = []
trim_left (c ∷ s) = if is_space c then trim_left s else c ∷ s

abbrev pub trim_space : Codes → Codes
trim_space s = reverse (trim_left (reverse (trim_left s)))

-- A text cut at the first `c`: what stands before it and after it.
abbrev pub cut : ℕ → Codes → Option (Codes × Codes)
cut c [] = none
cut c (d ∷ s) =
    if d == c then some ([], s) else (elim (cut c s) [ none ↦ none | some p ↦ some (d ∷ p.0, p.1) ])

-- What follows the last `c`, or the whole text where there is none.
abbrev pub after_last : ℕ → Codes → Codes
after_last c [] = []
after_last c (d ∷ s) =
    if d == c
    then (elim (cut c s) [ none ↦ s | some _ ↦ after_last c s ])
    else (elim (cut c s) [ none ↦ d ∷ s | some _ ↦ after_last c s ])

pub codes_eq_self : (s : Codes) → codes_eq s s ≡ true
codes_eq_self [] = refl
codes_eq_self (c ∷ s) = ground (arith, codes_eq_self s)

pub codes_eq→eq : (s t : Codes) → codes_eq s t ≡ true → s ≡ t
codes_eq→eq [] [] h = refl
codes_eq→eq [] (d ∷ t) h = cc
codes_eq→eq (c ∷ s) [] h = cc
codes_eq→eq (c ∷ s) (d ∷ t) h = ground (arith, codes_eq→eq s t)

-- A prefix splits the text.
pub has_prefix_split : (s p : Codes) → has_prefix s p ≡ true → (r : Codes) × (s ≡ p ++ r)
has_prefix_split s [] h = (s, refl)
has_prefix_split [] (d ∷ p) h = cc
has_prefix_split (c ∷ s) (d ∷ p) h =
    let rest : (r : Codes) × (s ≡ p ++ r) = has_prefix_split s p (ground arith) in
    (rest.0, ground (arith, rest.1))

pub has_prefix-append : (p r : Codes) → has_prefix (p ++ r) p ≡ true
has_prefix-append [] r = refl
has_prefix-append (d ∷ p) r = ground (arith, has_prefix-append p r)
