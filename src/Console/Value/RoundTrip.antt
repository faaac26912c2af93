-- ===== src/Console/Value/RoundTrip.antt =====
-- A number that was serialised as a text, read as a number.
use toggle_web_baker.Common.{
  ℕ, zero, suc, ◌+◌, ◌-◌, ◌*◌, ◌/◌, ◌%◌, ◌^◌, ◌<◌, String, true, false, ◌≡◌, ap, sym, ◌∙◌, ◌∷◌,
  ◌++◌, if◌then◌else◌, ltb, leb, arith, Codes, codes, inl, inr, Bool-cases, ltb→lt, ◌==◌, ◌&&◌,
}
use toggle_web_baker.Common.Int.{ℤ, pos, negsuc}
use toggle_web_baker.Common.Decimal.{
  digit_text, format_from, format_nat, format_int, codes-append, codes-digit_text,
}
use toggle_web_baker.Console.Value.{
  text, integer, as_string, as_int, Scan, value, scan, scan_step, scan_number, parsed, signed,
  syntax,
}
use Prim.Native.String.{◌++◌ as str_append}

scan_step-fits : (rest : ℕ → Scan) (m : ℕ) → m < 2 ^ 64 → scan_step rest m ≡ rest m
scan_step-fits rest m h = ground arith

-- One digit.
scan-digit :
    (n d : ℕ) (s : Codes)
    → d < 10
    → 10 * n + d < 2 ^ 64
    → scan n ((48 + d) ∷ s) ≡ scan (10 * n + d) s
scan-digit n d s h fits =
    let low : leb 48 (48 + d) ≡ true = ground arith in
    let high : leb (48 + d) 57 ≡ true = ground arith in
    let same : 10 * n + (48 + d - 48) ≡ 10 * n + d = omega arith in
    (λ i. if low i && high i then scan_step (λ m. scan m s) (same i) else syntax)
    ∙ scan_step-fits (λ m. scan m s) (10 * n + d) fits

scan-format_from :
    (fuel n : ℕ) (out : String)
    → n < fuel
    → n < 2 ^ 64
    → scan 0 (codes (format_from fuel n out)) ≡ scan n (codes out)
unfolding format_from
scan-format_from zero n out h fits = absurd (omega arith)
scan-format_from (suc fuel) n out h fits = elim (Bool-cases (ltb n 10)) [
  | inl small ↦
      let few : n < 10 = ltb→lt n 10 small in
      rw small (
        ap (scan 0)
          (codes-append (digit_text n) out ∙ ap (λ c. c ++ codes out) (codes-digit_text n few))
        ∙ (scan-digit 0 n (codes out) few (omega arith)
            ∙ ap (λ m. scan m (codes out)) (omega arith)))
  | inr large ↦
      let last : n % 10 < 10 = omega arith in
      rw large (
        scan-format_from fuel (n / 10) (str_append (digit_text (n % 10)) out) (ground arith)
          (omega arith)
        ∙ (ap (scan (n / 10)) (
              codes-append (digit_text (n % 10)) out
              ∙ ap (λ c. c ++ codes out) (codes-digit_text (n % 10) last))
            ∙ (scan-digit (n / 10) (n % 10) (codes out) last (omega arith)
                ∙ ap (λ m. scan m (codes out)) (omega arith))))
]

-- What is printed starts with a digit.
format_from-digit :
    (fuel n : ℕ) (out : String)
    → n < fuel
    → (d : ℕ) × (s : Codes) × (d < 10) × (codes (format_from fuel n out) ≡ (48 + d) ∷ s)
unfolding format_from
format_from-digit zero n out h = absurd (omega arith)
format_from-digit (suc fuel) n out h = elim (Bool-cases (ltb n 10)) [
  | inl small ↦
      let few : n < 10 = ltb→lt n 10 small in
      (
        n,
        codes out,
        few,
        rw small
            (codes-append (digit_text n) out ∙ ap (λ c. c ++ codes out) (codes-digit_text n few)),
      )
  | inr large ↦
      let (d, s, few, e) =
        format_from-digit fuel (n / 10) (str_append (digit_text (n % 10)) out) (ground arith) in
      (d, s, few, rw large e)
]

-- A text of digits is read as the number that the scan finds.
parsed-digit :
    (d : ℕ) (s : Codes) → d < 10 → parsed ((48 + d) ∷ s) ≡ signed false (scan 0 ((48 + d) ∷ s))
unfolding parsed
parsed-digit d s h =
    let minus : (48 + d) == 45 ≡ false = ground arith in
    let plus : (48 + d) == 43 ≡ false = ground arith in rw (minus, plus)

scan-format_nat : (n : ℕ) → n < 2 ^ 64 → scan 0 (codes (format_nat n)) ≡ value n
unfolding format_nat
scan-format_nat n fits = scan-format_from (suc n) n "" (omega arith) fits

parsed-format_nat : (n : ℕ) → n < 2 ^ 63 → parsed (codes (format_nat n)) ≡ pos n
unfolding format_nat
parsed-format_nat n fits =
    let (d, s, few, e) = format_from-digit (suc n) n "" (omega arith) in
    let read : signed false (value n) ≡ pos n = ground arith in
    ap parsed e
    ∙ (parsed-digit d s few
        ∙ (ap (signed false) (sym (ap (scan 0) e) ∙ scan-format_nat n (omega arith)) ∙ read))

parsed-negative : (n : ℕ) → n < 2 ^ 63 → parsed (b'-' ∷ codes (format_nat (suc n))) ≡ negsuc n
unfolding parsed format_nat
parsed-negative n fits =
    let (d, s, few, e) = format_from-digit (suc (suc n)) (suc n) "" (omega arith) in
    let read : signed true (value (suc n)) ≡ negsuc n = ground arith in
    ap (λ c. signed true (scan_number c)) e
    ∙ (ap (signed true) (sym (ap (scan 0) e) ∙ scan-format_nat (suc n) (omega arith)) ∙ read)

-- The numbers of an `int64`.
abbrev pub IsInt64 : ℤ → Type 0
IsInt64 (pos n) = n < 2 ^ 63
IsInt64 (negsuc n) = n < 2 ^ 63

-- An `int64` that the API server hands over as a text is read as the same number: what `asString` prints
-- of it, `asInt` reads, negative numbers and both bounds included.
pub as_int-as_string : (n : ℤ) → IsInt64 n → as_int (text (as_string (integer n))) ≡ n
unfolding as_int as_string format_int
as_int-as_string (pos n) h = parsed-format_nat n h
as_int-as_string (negsuc n) h =
    ap parsed (codes-append "-" (format_nat (suc n))) ∙ parsed-negative n h
