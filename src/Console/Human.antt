-- ===== src/Console/Human.antt =====
-- console/internal/view/humanize.go and storagebar.go: byte counts for people. `one_decimal n unit` is
-- what `%.1f` prints of the `float64` n / unit, and `percent used cap` the rounded `float64` of
-- used / cap * 100. A `float64` holds each power of 1024 that is compared with exactly.
pub mod Bounds
use toggle_web_baker.Common.{
  ℕ, zero, suc, ◌*◌, ◌-◌, ◌^◌, String, Bool, true, false, if◌then◌else◌, ltb, ◌==◌, not, ◌&&◌, leb,
}
use toggle_web_baker.Common.Int.{ℤ, pos, negsuc, leb_ℤ, ltb_ℤ}
use toggle_web_baker.Common.Decimal.{format_nat, format_int}
use Prim.Native.String.{◌++◌ as str_append}

-- The units from KiB: the loop divides by 1024 at most three times more. The first is 0.
unfoldable pub unit_index : ℕ → ℕ → ℕ → ℕ
unit_index zero index n = index
unit_index (suc left) index n =
    let more = unit_index left (suc index) n in
    if ltb n (1024 ^ suc (suc index)) then index else more

abbrev pub unit_name : ℕ → String
unit_name zero = "KiB"
unit_name (suc zero) = "MiB"
unit_name (suc (suc zero)) = "GiB"
unit_name (suc (suc (suc n))) = "TiB"

module _ (one_decimal : ℕ → ℕ → String) where
  -- A count of at least 1024 bytes.
  unfoldable pub in_units : ℕ → String
  unfolding unit_index
  in_units n =
      let index = unit_index 3 0 n in
      str_append (one_decimal n (1024 ^ suc index)) (str_append " " (unit_name index))

  -- The least `int64` is its own negation, which is below 1024.
  unfoldable pub humanize_bytes : ℤ → String
  unfolding in_units format_nat format_int
  humanize_bytes (pos zero) = "0 B"
  humanize_bytes (pos (suc n)) =
      if ltb (suc n) 1024 then str_append (format_nat (suc n)) " B" else in_units (suc n)
  humanize_bytes (negsuc n) =
      if ltb (suc n) 1024
      then str_append "-" (str_append (format_nat (suc n)) " B")
      else if suc n == 2 ^ 63
      then str_append "-" (str_append (format_int (negsuc n)) " B")
      else str_append "-" (in_units (suc n))

  unfoldable pub humanize_delta : ℤ → String
  unfolding humanize_bytes
  humanize_delta (pos zero) = "▬ no change"
  humanize_delta (pos (suc n)) = str_append "▲ +" (humanize_bytes (pos (suc n)))
  humanize_delta (negsuc n) = str_append "▼ " (humanize_bytes (negsuc n))

-- `StorageBarNoBar`
abbrev pub no_bar : ℤ
no_bar = negsuc 0

unfoldable pub storage_bar : (ℤ → ℤ → ℤ) → ℤ → ℤ → ℤ × Bool
storage_bar percent used cap =
    if leb_ℤ cap (pos 0) then (no_bar, false) else (percent used cap, ltb_ℤ cap used)
