-- ===== src/Libc/Time/Fields.antt =====
-- The loops of gmtime.c: how they take a count of days apart.
use simple_scc.Common.{
  ℕ, zero, suc, ◌+◌, ◌-◌, ◌%◌, ◌<◌, ◌≤◌, ◌≡◌, ◌⊎◌, inl, inr, refl, arith, List, [], ◌∷◌, length,
  leb, not, ◌&&◌, ◌==◌, Bool-cases,
}
use simple_scc.Libc.Time.{
  ok, daysyear, febdays, daysmon, newyear, year_of, month_of, days_at, days_before, days_of_years,
}

pub daysyear-cases : (y : ℕ) → (daysyear y ≡ 365) ⊎ (daysyear y ≡ 366)
unfolding daysyear
daysyear-cases y = elim (Bool-cases (not (y % 4 == 0))) [
  | inl e ↦ inl (rw e)
  | inr e ↦ elim (Bool-cases (y % 100 == 0 && not (y % 400 == 0))) [
    | inl e' ↦ inl (rw (e, e'))
    | inr e' ↦ inr (rw (e, e'))
  ]
]

-- The years that the loop counts, and a day within the year where it stops.
pub year_of_lem :
    (fuel i day : ℕ)
    → day ≤ fuel
    → (n y d : ℕ) × (year_of fuel i day ≡ (y, d))
      × (y ≡ i + n)
      × (d < daysyear y)
      × (days_of_years n i + d ≡ day)
unfolding year_of days_of_years
year_of_lem zero i day h =
    (0, i, day, refl, omega arith, ground (arith, daysyear-cases i), omega arith)
year_of_lem (suc fuel) i day h = elim (Bool-cases (leb (daysyear i) day)) [
  | inl e ↦
      let (n, y, d, eq, years, below, total) =
        year_of_lem fuel (suc i) (day - daysyear i) (ground (arith, daysyear-cases i)) in
      (suc n, y, d, rw (e, eq), omega arith, below, ground arith)
  | inr e ↦ (0, i, day, rw e, omega arith, ground arith, omega arith)
]

-- The months that the loop counts, and a day within the month where it stops.
pub month_of_lem :
    (i day : ℕ) (ms : List ℕ)
    → day < days_before (length ms) ms
    → (k j d m : ℕ) × (month_of i day ms ≡ ok (j, d))
      × (j ≡ i + k)
      × (k < length ms)
      × (days_at k ms ≡ ok m)
      × (d < m)
      × (days_before k ms + d ≡ day)
unfolding month_of days_before days_at
month_of_lem i day [] h = absurd (omega arith)
month_of_lem i day (m ∷ ms) h = elim (Bool-cases (leb m day)) [
  | inl e ↦
      let (k, j, d, n, eq, months, inside, at, below, total) =
        month_of_lem (suc i) (day - m) ms (ground arith) in
      (suc k, j, d, n, rw (e, eq), omega arith, omega arith, at, below, ground arith)
  | inr e ↦ (0, i, day, m, rw e, omega arith, omega arith, refl, ground arith, omega arith)
]

pub days_before-year : (y : ℕ) → days_before 12 (daysmon (febdays y)) ≡ daysyear y
unfolding days_before daysmon febdays
days_before-year y = ground (arith, daysyear-cases y)

newyear-lt : (y : ℕ) → newyear y < 7
unfolding newyear
newyear-lt y = omega arith

newyear-suc : (y : ℕ) → newyear (suc y) ≡ (newyear y + daysyear (1900 + y)) % 7
unfolding newyear daysyear
newyear-suc y = ground arith

pub newyear-days :
    (n y z : ℕ) → z ≡ 1900 + y → newyear (y + n) ≡ (newyear y + days_of_years n z) % 7
unfolding days_of_years
newyear-days zero y z h =
    let small = newyear-lt y in let e : y + 0 ≡ y = omega arith in rw e (omega arith)
newyear-days (suc n) y z h =
    let later = newyear-days n (suc y) (suc z) (omega arith) in
    let step = newyear-suc y in
    let e : y + suc n ≡ suc y + n = omega arith in rw (e, later, step, h) (omega arith)
