-- ===== src/Libc/Time.antt =====
-- Calendar time, src/libc/time: gmtime.c, mktime.c, _daysyear.c and _newyear.c, with _systime.c of
-- src/libc/arch/posix. A time_t is a number of seconds, not negative; the int fields of a struct tm
-- are integers, and an int that overflows is undefined.
pub mod Fields
pub mod RoundTrip
mod Tests
use simple_scc.Common.{
  ℕ, zero, suc, ◌+◌, ◌-◌, ◌*◌, ◌/◌, ◌%◌, ◌^◌, Bool, true, false, not, ◌&&◌, List, [], ◌∷◌, ltb, leb,
  ◌==◌, if◌then◌else◌,
}
use simple_scc.Common.Int.{
  ℤ, pos, negsuc, pos_part, neg_part, negate, ◌+ℤ◌, ◌-ℤ◌, ◌*ℤ◌, quot, ltb_ℤ, leb_ℤ,
}

-- `fail` is the answer 0 of `norm` and `normalize`, and -1 of `mktime`.
pub data Try {ℓ} (A : Type ℓ) : Type ℓ where
  ok : A → Try A
  fail undefined : Try A

infixl 5 ◌>>=◌
abbrev pub ◌>>=◌ {ℓ κ} : {A : Type ℓ} {B : Type κ} → Try A → (A → Try B) → Try B
ok a >>= f = f a
fail >>= f = fail
undefined >>= f = undefined

unfoldable pub int : ℤ → Try ℤ
int v = if leb_ℤ (negsuc (2 ^ 31 - 1)) v && leb_ℤ v (pos (2 ^ 31 - 1)) then ok v else undefined

-- The fields that are computed; `tm_isdst` and `tm_gmtoff` are set to 0 by all of this code.
pub record Tm : Type 0 where
  pub sec : ℤ
  pub min : ℤ
  pub hour : ℤ
  pub mday : ℤ
  pub mon : ℤ
  pub year : ℤ
  pub wday : ℤ
  pub yday : ℤ

unfoldable pub daysyear : ℕ → ℕ
daysyear year =
    if not (year % 4 == 0)
    then 365
    else if year % 100 == 0 && not (year % 400 == 0)
    then 365
    else 366

unfoldable pub febdays : ℕ → ℕ
febdays year = if daysyear year == 366 then 29 else 28

-- `_daysmon` with the days of February put in, from a month on.
unfoldable pub daysmon : ℕ → List ℕ
daysmon feb = 31 ∷ feb ∷ 31 ∷ 30 ∷ 31 ∷ 30 ∷ 31 ∷ 31 ∷ 30 ∷ 31 ∷ 30 ∷ 31 ∷ []

-- `year` is counted from 1900.
unfoldable pub newyear : ℕ → ℕ
newyear year = let y = year + 1900 - 1 in (1 + y + y / 4 - y / 100 + y / 400) % 7

-- for (i = EPOCH; day >= _daysyear(i); ++i): the year, and the days that are left. The day falls in
-- each round, so that the fuel `day` is enough.
unfoldable pub year_of : ℕ → ℕ → ℕ → ℕ × ℕ
year_of zero i day = (i, day)
year_of (suc fuel) i day =
    let later = year_of fuel (suc i) (day - daysyear i) in
    if leb (daysyear i) day then later else (i, day)

-- for (i = JAN; day >= _daysmon[i]; i++), on the months that are left: reading past them is
-- undefined.
unfoldable pub month_of : ℕ → ℕ → List ℕ → Try (ℕ × ℕ)
month_of i day [] = undefined
month_of i day (m ∷ ms) =
    let later = month_of (suc i) (day - m) ms in if leb m day then later else ok (i, day)

unfoldable pub gmtime : ℕ → Try Tm
unfolding year_of month_of daysmon febdays
gmtime t = do
  let sec = t % 86400
  let day = t / 86400
  let (year, yday) = year_of day 1970 day
  (mon, mday) ← month_of 0 yday (daysmon (febdays year))
  ok (record {
    sec = pos (sec % 60);
    min = pos (sec / 60 % 60);
    hour = pos (sec / 60 / 60);
    mday = pos (mday + 1);
    mon = pos mon;
    year = pos (year - 1900);
    wday = pos ((day + 4) % 7);
    yday = pos yday;
  })

-- The first half of `norm`, for a negative value.
norm_below : ℤ → ℤ → ℕ → Try (ℤ × ℤ)
unfolding int
norm_below v n max = do
  m ← int (negate v)
  d ← int (quot m (pos max) +ℤ pos 1)
  add ← int (d *ℤ pos max)
  v' ← int (v +ℤ add)
  bound ← int (pos (2 ^ 31 - 1) -ℤ d)
  let n' = int (n -ℤ d)
  if ltb_ℤ bound n then fail else (do r ← n'; ok (v', r))

-- The second half, for a value that is not below `max`.
norm_above : ℤ → ℤ → ℕ → Try (ℤ × ℤ)
unfolding int
norm_above v n max = do
  let d = quot v (pos max)
  less ← int (d *ℤ pos max)
  v' ← int (v -ℤ less)
  bound ← int (negsuc (2 ^ 31 - 1) +ℤ d)
  let n' = int (n +ℤ d)
  if ltb_ℤ n bound then fail else (do r ← n'; ok (v', r))

-- `*val` and `*next` when `norm` returns 1.
unfoldable pub norm : ℤ → ℤ → ℕ → Try (ℤ × ℤ)
unfolding norm_below norm_above
norm v n max = do
  p ← (if ltb_ℤ v (pos 0) then norm_below v n max else ok (v, n))
  if leb_ℤ (pos max) p.0 then norm_above p.0 p.1 max else ok p

-- A month of a year, and a day of it that may be outside of it.
pub record Day : Type 0 where
  pub year : ℕ
  pub mon : ℕ
  pub mday : ℤ

-- `_daysmon[mon]`; reading outside of it is undefined.
unfoldable pub days_at : ℕ → List ℕ → Try ℕ
days_at mon [] = undefined
days_at zero (m ∷ ms) = ok m
days_at (suc mon) (m ∷ ms) = days_at mon ms

unfoldable pub days_in : ℕ → ℕ → Try ℕ
unfolding days_at daysmon febdays
days_in year mon = days_at mon (daysmon (febdays year))

-- for (mon = tm->tm_mon; day < 1; --mon). A round adds the days of a month, so that the fuel
-- `neg_part day + 2` is enough.
unfoldable pub step_back : Day → Try Day
unfolding days_in
step_back d =
    if d.mon == 0
    then (if d.year == 1900 then fail else (do
      m ← days_in (d.year - 1) 11
      ok (record { year = d.year - 1; mon = 11; mday = d.mday +ℤ pos m })))
    else (do
      m ← days_in d.year (d.mon - 1)
      ok (record { year = d.year; mon = d.mon - 1; mday = d.mday +ℤ pos m }))

unfoldable pub back : ℕ → Day → Try Day
back zero d = undefined
back (suc fuel) d =
    let earlier = step_back d >>= back fuel in if ltb_ℤ d.mday (pos 1) then earlier else ok d

-- The days of the first `mon` months.
unfoldable pub days_before : ℕ → List ℕ → ℕ
days_before zero ms = 0
days_before (suc mon) [] = 0
days_before (suc mon) (m ∷ ms) = m + days_before mon ms

-- What `normalize` stores at its end.
unfoldable pub finish : Tm → Day → Tm
unfolding days_before daysmon febdays newyear
finish tm d =
    let yday = pos (days_before d.mon (daysmon (febdays d.year))) +ℤ d.mday -ℤ pos 1 in
    record tm {
      mon = pos d.mon;
      year = pos (d.year - 1900);
      mday = d.mday;
      yday = yday;
      wday = pos ((newyear (d.year - 1900) + pos_part yday) % 7);
    }

-- `maxyear` is _MAXYEAR, which the headers of the host define.
module _ (maxyear : ℕ) where
  unfoldable pub step_on : ℕ → Day → Try Day
  step_on m d =
      if d.mon == 11
      then (if d.year == maxyear
          then fail
          else ok (record { year = d.year + 1; mon = 0; mday = d.mday -ℤ pos m }))
      else ok (record { year = d.year; mon = d.mon + 1; mday = d.mday -ℤ pos m })

  -- for (; day > _daysmon[mon]; ++mon). A round takes the days of a month away, so that the fuel
  -- `pos_part day + 1` is enough.
  unfoldable pub onward : ℕ → Day → Try Day
  unfolding days_in step_on
  onward zero d = undefined
  onward (suc fuel) d = do
    m ← days_in d.year d.mon
    let later = step_on m d >>= onward fuel
    if ltb_ℤ (pos m) d.mday then later else ok d

  -- The two loops over the months, from a month of a year on.
  unfoldable pub to_month : Day → Try Day
  unfolding back onward
  to_month d = do e ← back (suc (suc (neg_part d.mday))) d; onward (suc (pos_part e.mday)) e

  unfoldable pub normalize : Tm → Try Tm
  unfolding norm to_month finish int
  normalize tm = do
    a ← norm tm.sec tm.min 60
    b ← norm a.1 tm.hour 60
    c ← norm b.1 tm.mday 24
    e ← norm tm.mon tm.year 12
    let normal = record tm { sec = a.0; min = b.0; hour = c.0 }
    let rest = do
      year ← int (pos 1900 +ℤ e.1)
      let go = to_month (record { year = pos_part year; mon = pos_part e.0; mday = c.1 })
      if ltb_ℤ (pos maxyear) year then fail else (do d ← go; ok (finish normal d))
    if ltb_ℤ e.1 (pos 0) then fail else rest

-- The loop over the years from `i` on, `n` of them.
unfoldable pub days_of_years : ℕ → ℕ → ℕ
days_of_years zero i = 0
days_of_years (suc n) i = daysyear i + days_of_years n (suc i)

-- `_systime`, with the days of February that `normalize` has left in `_daysmon`.
unfoldable pub systime : ℕ → Tm → ℤ
unfolding days_of_years days_before daysmon
systime feb tm =
    let years = days_of_years (pos_part tm.year + 1900 - 1970) 1970 in
    let months = days_before (pos_part tm.mon) (daysmon feb) in
    pos ((years + months) * 86400)
    +ℤ tm.sec
    +ℤ tm.min *ℤ pos 60
    +ℤ tm.hour *ℤ pos 3600
    +ℤ (tm.mday -ℤ pos 1) *ℤ pos 86400

-- The time, and what `*tm` becomes.
unfoldable pub mktime : ℕ → Tm → Try (ℤ × Tm)
mktime maxyear tm = do
  tm' ← normalize maxyear tm
  ok (systime (febdays (pos_part tm'.year + 1900)) tm', tm')
