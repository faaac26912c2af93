-- ===== src/Console/Human/Bounds.antt =====
-- The unit that a byte count is shown in.
use toggle_web_baker.Common.{
  ℕ, zero, suc, ◌+◌, ◌^◌, ◌≤◌, ◌<◌, ◌≡◌, ◌⊎◌, refl, sym, subst, ltb→lt, false, arith, ltb, inl, inr,
  Bool-cases,
}
use toggle_web_baker.Console.Human.{unit_index}

-- The count reaches the unit, and stays under 1024 of it unless the unit is the largest.
abbrev pub Fits : ℕ → ℕ → Type 0
Fits index n = (index ≤ 3) × (1024 ^ suc index ≤ n) × ((index ≡ 3) ⊎ (n < 1024 ^ suc (suc index)))

not_ltb : (a b : ℕ) → ltb a b ≡ false → b ≤ a
not_ltb a b h = ground arith

unit_index-from :
    (left index n : ℕ) → left + index ≡ 3 → 1024 ^ suc index ≤ n → Fits (unit_index left index n) n
unfolding unit_index
unit_index-from zero index n total least = (omega arith, least, inl (omega arith))
unit_index-from (suc left) index n total least =
    elim (Bool-cases (ltb n (1024 ^ suc (suc index)))) [
      | inl small ↦
          let stops : unit_index (suc left) index n ≡ index = rw small in
          subst (λ k. Fits k n) (sym stops) (omega arith, least, inr (ltb→lt n _ small))
      | inr large ↦
          let goes_on : unit_index (suc left) index n ≡ unit_index left (suc index) n = rw large in
          let reached : 1024 ^ suc (suc index) ≤ n = not_ltb n (1024 ^ suc (suc index)) large in
          subst (λ k. Fits k n) (sym goes_on)
            (unit_index-from left (suc index) n (omega arith) reached)
    ]

-- A count of at least 1024 bytes is shown in a unit that it reaches, with fewer than 1024 of it unless the
-- unit is TiB: the loop stops at the right unit, and never indexes past the last one.
pub unit_index-Fits : (n : ℕ) → 1024 ≤ n → Fits (unit_index 3 0 n) n
unit_index-Fits n h = unit_index-from 3 0 n refl h
