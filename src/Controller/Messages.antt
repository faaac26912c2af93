-- ===== src/Controller/Messages.antt =====
-- The termination messages that internal/controller parses: the shim's peak memory
-- (buildsteps.go) and the byte count of a measurement (measure.go).
use toggle_web_baker.Common.{
  ℕ, zero, suc, ◌+◌, ◌-◌, ◌*◌, ◌^◌, String, Bool, true, false, ◌&&◌, ◌≡◌, refl, Option, none, some,
  List, [], ◌∷◌, ◌++◌, if◌then◌else◌, leb, ltb, ◌==◌, Codes, codes, trim_space,
}
use toggle_web_baker.Common.Int.{ℤ, pos, negsuc}

-- The decimal digits that `strconv.ParseInt` reads after the sign.
abbrev pub digits_value : ℕ → Codes → Option ℕ
digits_value n [] = some n
digits_value n (c ∷ s) =
    if leb b'0' c && leb c b'9' then digits_value (10 * n + (c - b'0')) s else none

abbrev pub unsigned : Codes → Option ℕ
unsigned [] = none
unsigned (c ∷ s) = digits_value 0 (c ∷ s)

-- The value with its sign, where it fits `int64`.
abbrev pub in_int64 : Bool → Option ℕ → Option ℤ
in_int64 negative none = none
in_int64 false (some n) = if ltb n (2 ^ 63) then some (pos n) else none
in_int64 true (some zero) = some (pos 0)
in_int64 true (some (suc n)) = if ltb n (2 ^ 63) then some (negsuc n) else none

-- `strconv.ParseInt(s, 10, 64)`
unfoldable pub parse_int : Codes → Option ℤ
parse_int [] = none
parse_int (c ∷ s) =
    if c == b'-'
    then in_int64 true (unsigned s)
    else if c == b'+'
    then in_int64 false (unsigned s)
    else in_int64 false (unsigned (c ∷ s))

-- `n, err := ParseInt(…); err != nil || n < 0` fails.
abbrev pub not_negative : Option ℤ → Option ℕ
not_negative none = none
not_negative (some (negsuc n)) = none
not_negative (some (pos n)) = some n

-- The number in a `du` pod's message (the end of `readMeasurement`).
unfoldable pub byte_count : String → Option ℕ
unfolding parse_int
byte_count message = not_negative (parse_int (trim_space (codes message)))

-- `strings.Split(msg, "\n")`: the pieces between line feeds, at least one.
abbrev pub lines_from : Codes → Codes → List Codes
lines_from line [] = line ∷ []
lines_from line (c ∷ s) =
    let closed = line ∷ lines_from [] s in
    let longer = lines_from (line ++ c ∷ []) s in if c == 10 then closed else longer

unfoldable pub lines : Codes → List Codes
lines s = lines_from [] s

-- `strings.CutPrefix(s, p)`
unfoldable pub cut_prefix : Codes → Codes → Option Codes
cut_prefix s [] = some s
cut_prefix [] (d ∷ p) = none
cut_prefix (c ∷ s) (d ∷ p) = if c == d then cut_prefix s p else none

abbrev pub or_zero : Option ℕ → ℕ
or_zero none = 0
or_zero (some n) = n

abbrev pub peak_memory_key : Codes
peak_memory_key = codes "peakMemoryBytes="

-- The first line with the key decides.
abbrev pub peak_in : List Codes → ℕ
unfolding cut_prefix parse_int
peak_in [] = 0
peak_in (line ∷ rest) = elim (cut_prefix (trim_space line) peak_memory_key) [
  | none ↦ peak_in rest
  | some val ↦ or_zero (not_negative (parse_int (trim_space val)))
]

unfoldable pub parse_peak_memory : String → ℕ
unfolding peak_in lines
parse_peak_memory msg = peak_in (lines (codes msg))

peak_after_other_lines : parse_peak_memory "warn\n peakMemoryBytes=1048576 \n" ≡ 1048576
unfolding parse_peak_memory
peak_after_other_lines = refl

peak_garbage : parse_peak_memory "peakMemoryBytes=-5" ≡ 0
unfolding parse_peak_memory
peak_garbage = refl
