-- ===== src/Console/Value.antt =====
-- console/internal/view/coerce.go: the values of a decoded object, and how a field is read as a text,
-- a number or a Boolean, whatever type it has.
pub mod RoundTrip
use toggle_web_baker.Common.{
  ℕ, zero, suc, ◌+◌, ◌-◌, ◌*◌, ◌^◌, ◌&&◌, leb, String, Bool, true, false, Option, none, some, List,
  [], ◌∷◌, if◌then◌else◌, ltb, ◌==◌, str_eq, any, Codes, codes, Map, lookup,
}
use toggle_web_baker.Common.Int.{ℤ, pos, negsuc}
use toggle_web_baker.Common.Decimal.{format_int}
use Prim.Native.Nat.{Ordering, compare}

-- A `float64` as the source looks at it: the `int64` it truncates to, whether it equals that, and the
-- text that `strconv.FormatFloat` gives.
pub record Float : Type 0 where
  pub truncated : ℤ
  pub integral : Bool
  pub printed : String

-- What a JSON object decodes to. A missing field reads as `nil`.
mutual
  pub data Value : Type 0 where
    nil : Value
    text : String → Value
    boolean : Bool → Value
    integer : ℤ → Value
    float : Float → Value
    array : Values → Value
    object : Fields → Value

  pub data Values : Type 0 where
    no_items : Values
    item : Value → Values → Values

  pub data Fields : Type 0 where
    no_fields : Fields
    field : String → Value → Fields → Fields

abbrev pub items : Values → List Value
items no_items = []
items (item v vs) = v ∷ items vs

abbrev pub of_items : List Value → Values
of_items [] = no_items
of_items (v ∷ vs) = item v (of_items vs)

abbrev pub entries : Fields → Map Value
entries no_fields = []
entries (field k v fs) = (k, v) ∷ entries fs

abbrev pub of_entries : Map Value → Fields
of_entries [] = no_fields
of_entries ((k, v) ∷ fs) = field k v (of_entries fs)

-- `v.(map[string]any)` and `v.([]any)`
abbrev pub as_map : Value → Option (Map Value)
as_map (object fs) = some (entries fs)
as_map nil = none
as_map (text _) = none
as_map (boolean _) = none
as_map (integer _) = none
as_map (float _) = none
as_map (array _) = none

abbrev pub as_list : Value → Option (List Value)
as_list (array vs) = some (items vs)
as_list nil = none
as_list (text _) = none
as_list (boolean _) = none
as_list (integer _) = none
as_list (float _) = none
as_list (object _) = none

-- `m[k]`
abbrev pub or_nil : Option Value → Value
or_nil none = nil
or_nil (some v) = v

abbrev pub at : String → Map Value → Value
at k m = or_nil (lookup k m)

-- `strconv.FormatBool(b)`
abbrev pub format_bool : Bool → String
format_bool true = "true"
format_bool false = "false"

unfoldable pub as_string : Value → String
as_string (text t) = t
as_string (boolean b) = format_bool b
as_string (integer n) = format_int n
as_string (float t) = if t.integral then format_int t.truncated else t.printed
as_string nil = ""
as_string (array _) = ""
as_string (object _) = ""

-- What `strconv.ParseUint(s, 10, 64)` finds from left to right: a number, a character that is no
-- digit, or a number that does not fit 64 bits, after which it does not look further.
pub data Scan : Type 0 where
  value : ℕ → Scan
  syntax : Scan
  range : Scan

abbrev pub scan_step : (ℕ → Scan) → ℕ → Scan
scan_step rest m = elim (compare m (2 ^ 64)) [ Ordering.lt ↦ rest m | _ ↦ range ]

abbrev pub scan : ℕ → Codes → Scan
scan n [] = value n
scan n (c ∷ s) =
    if leb b'0' c && leb c b'9' then scan_step (λ m. scan m s) (10 * n + (c - b'0')) else syntax

abbrev pub scan_number : Codes → Scan
scan_number [] = syntax
scan_number (c ∷ s) = scan 0 (c ∷ s)

-- The number that `strconv.ParseInt` returns beside its error: 0 where the text is no number, and the
-- bound where it does not fit.
abbrev pub signed : Bool → Scan → ℤ
signed negative syntax = pos 0
signed false range = pos (2 ^ 63 - 1)
signed true range = negsuc (2 ^ 63 - 1)
signed false (value n) = if ltb n (2 ^ 63) then pos n else pos (2 ^ 63 - 1)
signed true (value zero) = pos 0
signed true (value (suc n)) = if ltb n (2 ^ 63) then negsuc n else negsuc (2 ^ 63 - 1)

unfoldable pub parsed : Codes → ℤ
parsed [] = pos 0
parsed (c ∷ s) =
    if c == b'-'
    then signed true (scan_number s)
    else if c == b'+'
    then signed false (scan_number s)
    else signed false (scan_number (c ∷ s))

unfoldable pub as_int : Value → ℤ
unfolding parsed
as_int (integer n) = n
as_int (float t) = t.truncated
as_int (text t) = parsed (codes t)
as_int nil = pos 0
as_int (boolean _) = pos 0
as_int (array _) = pos 0
as_int (object _) = pos 0

-- The texts for which `strconv.ParseBool` gives true.
abbrev true_texts : List String
true_texts = "1" ∷ "t" ∷ "T" ∷ "TRUE" ∷ "true" ∷ "True" ∷ []

unfoldable pub as_bool : Value → Bool
as_bool (boolean b) = b
as_bool (text t) = any (str_eq t) true_texts
as_bool nil = false
as_bool (integer _) = false
as_bool (float _) = false
as_bool (array _) = false
as_bool (object _) = false
