-- ===== src/Domain/WatchSchedule/Grid.antt =====
-- The intervals that internal/domain/watchschedule.go accepts, and the schedule of each.
use toggle_web_baker.Common.{
  ℕ, zero, suc, ◌+◌, ◌∙◌, [], ◌∷◌, ◌++◌, codes, if◌then◌else◌, lt→ltb, ok-injective, ◌*◌, ◌≤◌, ◌<◌,
  ◌≡◌, refl, ◌↔◌, String, Option, none, some, Codes, ok, arith, ◌/◌, ◌%◌, ltb, ◌==◌, Bool-cases,
  inl, inr, leb, leb→le, ltb→lt, subst, sym,
}
use toggle_web_baker.Common.Int.{ℤ, pos, negsuc, ltb_ℤ}
use toggle_web_baker.Domain.WatchSchedule.{
  minute, hour, every_minutes, every_hours, decimal, cron_of, cron_of_parsed, watch_cron,
}

-- A number below 100 in decimal.
abbrev pub shown : ℕ → Codes
shown n = if ltb n 10 then (b'0' + n) ∷ [] else (b'0' + n / 10) ∷ (b'0' + n % 10) ∷ []

decimal-shown : (n : ℕ) → 1 ≤ n → n < 100 → decimal n ≡ shown n
unfolding decimal
decimal-shown zero low high = absurd (omega arith)
decimal-shown (suc k) low high = elim (Bool-cases (ltb (suc k) 10)) [
  | inl y ↦ rw y refl
  | inr n ↦ rw (n, lt→ltb (suc k / 10) 10 (omega arith)) refl
]

-- A number of nanoseconds that cron can express, and its schedule: every m minutes, or at minute 0 of
-- every h hours.
pub data Grid (d : ℕ) (cron : Codes) : Type 0 where
  minutes :
      (m : ℕ)
      → 1 ≤ m
      → m ≤ 59
      → d ≡ m * minute
      → cron ≡ codes "*/" ++ shown m ++ codes " * * * *"
      → Grid d cron
  hours :
      (h : ℕ)
      → 1 ≤ h
      → h ≤ 23
      → d ≡ h * hour
      → cron ≡ codes "0 */" ++ shown h ++ codes " * * *"
      → Grid d cron

every_minutes-shown :
    (m : ℕ) → 1 ≤ m → m < 100 → every_minutes m ≡ codes "*/" ++ shown m ++ codes " * * * *"
unfolding every_minutes
every_minutes-shown m low high = rw (decimal-shown m low high) refl

every_hours-shown :
    (h : ℕ) → 1 ≤ h → h < 100 → every_hours h ≡ codes "0 */" ++ shown h ++ codes " * * *"
unfolding every_hours
every_hours-shown h low high = rw (decimal-shown h low high) refl

cron_of-Grid : (d : ℕ) (cron : Codes) → minute ≤ d → cron_of d ≡ ok cron → Grid d cron
unfolding cron_of
cron_of-Grid d cron h e = elim (Bool-cases (d % minute == 0)) [
  | inr f ↦ cc (rw f at e)
  | inl t ↦ elim (Bool-cases (leb (d / minute) 59)) [
    | inl small ↦
        let fits : d / minute ≤ 59 = leb→le _ _ small in
        let some_minutes : 1 ≤ d / minute = omega arith in
        let printed : every_minutes (d / minute) ≡ cron =
          ok-injective (every_minutes (d / minute)) cron (rw (t, small) at e) in
        minutes (d / minute) some_minutes fits (ground arith)
          (sym printed ∙ every_minutes-shown (d / minute) some_minutes (omega arith))
    | inr big ↦ elim (Bool-cases (d % hour == 0)) [
      | inr f ↦ cc (rw (t, big, f) at e)
      | inl t' ↦ elim (Bool-cases (ltb 23 (d / hour))) [
        | inl over ↦ cc (rw (t, big, t', over) at e)
        | inr fits ↦
            let some_hours : 1 ≤ d / hour = ground arith in
            let few : d / hour ≤ 23 = ground arith in
            let printed : every_hours (d / hour) ≡ cron =
              ok-injective (every_hours (d / hour)) cron (rw (t, big, t', fits) at e) in
            hours (d / hour) some_hours few (ground arith)
              (sym printed ∙ every_hours-shown (d / hour) some_hours (omega arith))
      ]
    ]
  ]
]

Grid-cron_of : (d : ℕ) (cron : Codes) → Grid d cron → cron_of d ≡ ok cron
unfolding cron_of
Grid-cron_of d cron (minutes m low high e c) =
    let q : d / minute ≡ m = omega arith in
    let r : d % minute ≡ 0 = omega arith in
    let printed : every_minutes m ≡ cron = every_minutes-shown m low (omega arith) ∙ sym c in
    rw (r, q) (ground (arith, printed))
Grid-cron_of d cron (hours h low high e c) =
    let q : d / hour ≡ h = omega arith in
    let r : d % hour ≡ 0 = omega arith in
    let s : d % minute ≡ 0 = omega arith in
    let big : 59 < d / minute = omega arith in
    let printed : every_hours h ≡ cron = every_hours-shown h low (omega arith) ∙ sym c in
    rw (s, r, q) (ground (arith, printed))

Grid-ge : (d : ℕ) (cron : Codes) → Grid d cron → minute ≤ d
Grid-ge d cron (minutes m low high e c) = omega arith
Grid-ge d cron (hours h low high e c) = omega arith

pos_path : (n d : ℕ) → some (pos n) ≡ some (pos d) → n ≡ d
pos_path n d e = cc

-- A poll interval is accepted exactly when it is one to 59 whole minutes or one to 23 whole hours,
-- and then it is turned into the schedule of that period: `*/m * * * *`, or `0 */h * * *`, with the
-- number in decimal.
pub watch_cron-Grid :
    (parse_duration : String → Option ℤ) (interval : String) (cron : Codes)
    → (watch_cron parse_duration interval ≡ ok cron)
      ↔ ((d : ℕ) × (parse_duration interval ≡ some (pos d)) × Grid d cron)
unfolding watch_cron
watch_cron-Grid parse_duration interval cron = of_parsed (parse_duration interval)
  where
    of_parsed :
        (p : Option ℤ) → (cron_of_parsed p ≡ ok cron) ↔ ((d : ℕ) × (p ≡ some (pos d)) × Grid d cron)
    of_parsed none = (λ e. cc, λ (d, e, g). cc)
    of_parsed (some (negsuc n)) = (λ e. ground arith, λ (d, e, g). cc)
    of_parsed (some (pos n)) = elim (Bool-cases (ltb_ℤ (pos n) (pos minute))) [
      | inl low ↦ (
        λ e. cc (rw (cron_of_parsed, low) at e),
        λ (d, e, g). absurd (omega (arith, Grid-ge d cron g, ltb→lt _ _ low, pos_path n d e)),
      )
      | inr high ↦ (
        λ e. (n, refl, cron_of-Grid n cron (ground arith) (rw high at e)),
        λ (d, e, g).
            rw high (Grid-cron_of n cron (subst (λ k. Grid k cron) (sym (pos_path n d e)) g)),
      )
    ]
