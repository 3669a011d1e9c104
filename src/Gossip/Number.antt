-- ===== src/Gossip/Number.antt =====
-- The numbers of JavaScript: a whole number up to 2^53 is itself, one above is rounded to the nearest
-- that a double has, and to the one with the even significand where two are as near.
use united.Prelude.{
  ℕ, zero, suc, ◌+◌, ◌*◌, ◌/◌, ◌%◌, ◌^◌, ◌≤◌, ◌≡◌, refl, ltb, leb, ◌==◌, if◌then◌else◌, arith,
}

-- `n` as a multiple of `unit`.
abbrev pub round_to : ℕ → ℕ → ℕ
round_to unit n =
    let q = n / unit in
    let r = n % unit in
    if ltb (2 * r) unit
    then q * unit
    else if 2 * r == unit
    then (if q % 2 == 0 then q * unit else (q + 1) * unit)
    else (q + 1) * unit

-- The first of the units, from 2 on, for which the significand has 53 bits. A number of 64 bits needs
-- eleven of them.
abbrev pub round_by : ℕ → ℕ → ℕ → ℕ
round_by zero unit n = round_to unit n
round_by (suc fuel) unit n =
    let wider = round_by fuel (2 * unit) n in
    if leb n (2 ^ 53 * unit) then round_to unit n else wider

-- `Number(n)`, and the result of an addition.
unfoldable pub to_number : ℕ → ℕ
to_number n = if leb n (2 ^ 53) then n else round_by 11 2 n

pub to_number_id : (n : ℕ) → n ≤ 2 ^ 53 → to_number n ≡ n
unfolding to_number
to_number_id n h = ground arith

-- The first whole number that is not a number of JavaScript.
pub to_number_tie : to_number (2 ^ 53 + 1) ≡ 2 ^ 53
unfolding to_number
to_number_tie = refl
