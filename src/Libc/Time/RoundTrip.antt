-- ===== src/Libc/Time/RoundTrip.antt =====
-- `mktime` of mktime.c on what `gmtime` of gmtime.c returns.
use simple_scc.Common.{
  ℕ, suc, ◌+◌, ◌-◌, ◌*◌, ◌/◌, ◌%◌, ◌^◌, ◌<◌, ◌≤◌, ◌≡◌, refl, arith, false, ap, ◌∙◌,
}
use simple_scc.Common.Int.{ℤ, pos, pos_part, neg_part, ltb_ℤ, ◌+ℤ◌, ◌-ℤ◌, ◌*ℤ◌}
use simple_scc.Libc.Time.{
  ok, int, Tm, Day, febdays, daysmon, newyear, year_of, gmtime, norm, days_in, days_before,
  days_of_years, back, onward, to_month, finish, normalize, systime, mktime,
}
use simple_scc.Libc.Time.Fields.{year_of_lem, month_of_lem, days_before-year, newyear-days}

norm_same : (v max : ℕ) (n : ℤ) → v < max → norm (pos v) n max ≡ ok (pos v, n)
unfolding norm
norm_same v max n h = ground arith

-- The loops of `normalize` stop at a day within its month.
back-same : (fuel : ℕ) (d : Day) → ltb_ℤ d.mday (pos 1) ≡ false → back (suc fuel) d ≡ ok d
unfolding back
back-same fuel d h = rw h

onward-same :
    (maxyear fuel m : ℕ) (d : Day)
    → days_in d.year d.mon ≡ ok m
    → ltb_ℤ (pos m) d.mday ≡ false
    → onward maxyear (suc fuel) d ≡ ok d
unfolding onward
onward-same maxyear fuel m d e h = rw (e, h)

to_month-same :
    (maxyear m : ℕ) (d : Day)
    → days_in d.year d.mon ≡ ok m
    → ltb_ℤ d.mday (pos 1) ≡ false
    → ltb_ℤ (pos m) d.mday ≡ false
    → to_month maxyear d ≡ ok d
unfolding to_month
to_month-same maxyear m d e h h' =
    rw (back-same (suc (neg_part d.mday)) d h, onward-same maxyear (pos_part d.mday) m d e h')

pos-add : (a b : ℕ) → pos a +ℤ pos b ≡ pos (a + b)
unfolding ◌+ℤ◌
pos-add a b = ground arith

pos-mul : (a b : ℕ) → pos a *ℤ pos b ≡ pos (a * b)
unfolding ◌*ℤ◌
pos-mul a b = refl

pos-suc_sub : (d : ℕ) → pos (d + 1) -ℤ pos 1 ≡ pos d
unfolding ◌-ℤ◌
pos-suc_sub d = ground arith

systime-pos :
    (feb s m h years months d : ℕ) (tm : Tm)
    → tm.sec ≡ pos s
    → tm.min ≡ pos m
    → tm.hour ≡ pos h
    → tm.mday ≡ pos (d + 1)
    → days_of_years (pos_part tm.year + 1900 - 1970) 1970 ≡ years
    → days_before (pos_part tm.mon) (daysmon feb) ≡ months
    → systime feb tm ≡ pos ((years + months) * 86400 + s + m * 60 + h * 3600 + d * 86400)
unfolding systime
systime-pos feb s m h years months d tm es em eh ed ey emon =
    rw (es, em, eh, ed, ey, emon) (simp (pos-suc_sub, pos-mul, pos-add))

-- The fields that `gmtime` computes, by what its loops find.
gmtime-fields :
    (t : ℕ)
    → (n y yday k d m : ℕ) × (gmtime t
        ≡ ok (record {
          sec = pos (t % 86400 % 60);
          min = pos (t % 86400 / 60 % 60);
          hour = pos (t % 86400 / 60 / 60);
          mday = pos (d + 1);
          mon = pos k;
          year = pos (y - 1900);
          wday = pos ((t / 86400 + 4) % 7);
          yday = pos yday;
        }))
      × (y ≡ 1970 + n)
      × (days_of_years n 1970 + yday ≡ t / 86400)
      × (days_in y k ≡ ok m)
      × (d < m)
      × (k < 12)
      × (days_before k (daysmon (febdays y)) + d ≡ yday)
      × (y ≡ (year_of (t / 86400) 1970 (t / 86400)).0)
unfolding gmtime days_in
gmtime-fields t =
    let (n, y, yday, eq, years, below, total) =
      year_of_lem (t / 86400) 1970 (t / 86400) (omega arith) in
    let (k, j, d, m, eq', months, inside, at, within, rest) =
      month_of_lem 0 yday (daysmon (febdays y)) (rw (days_before-year y) below) in
    let same : j ≡ k = omega arith in
    (
      n,
      y,
      yday,
      k,
      d,
      m,
      rw (eq, eq', same) refl,
      years,
      total,
      at,
      within,
      inside,
      rest,
      rw eq refl,
    )

newyear_1970 : newyear 70 ≡ 4
unfolding newyear
newyear_1970 = refl

yday-pos : (b d : ℕ) → pos b +ℤ pos (d + 1) -ℤ pos 1 ≡ pos (b + d)
yday-pos b d =
    rw (pos-add b (d + 1))
      (let e : b + (d + 1) ≡ b + d + 1 = omega arith in rw e (pos-suc_sub (b + d)))

wday-days :
    (n y yday day : ℕ)
    → y ≡ 1970 + n
    → days_of_years n 1970 + yday ≡ day
    → (newyear (y - 1900) + yday) % 7 ≡ (day + 4) % 7
wday-days n y yday day years total =
    let e : y - 1900 ≡ 70 + n = omega arith in
    rw (e, newyear-days n 70 1970 (omega arith), newyear_1970) (omega arith)

finish-same :
    (tm : Tm) (n y yday k d day : ℕ)
    → y ≡ 1970 + n
    → days_of_years n 1970 + yday ≡ day
    → days_before k (daysmon (febdays y)) + d ≡ yday
    → finish tm (record { year = y; mon = k; mday = pos (d + 1) }) ≡ record tm {
      mon = pos k;
      year = pos (y - 1900);
      mday = pos (d + 1);
      yday = pos yday;
      wday = pos ((day + 4) % 7);
    }
unfolding finish
finish-same tm n y yday k d day years total rest =
    let e = yday-pos (days_before k (daysmon (febdays y))) d in
    rw (e, rest, wday-days n y yday day years total)

int-year :
    (y maxyear : ℕ)
    → 1900 ≤ y
    → y ≤ maxyear
    → maxyear < 2 ^ 31
    → int (pos 1900 +ℤ pos (y - 1900)) ≡ ok (pos y)
unfolding int
int-year y maxyear h h' h'' =
    let e : 1900 + (y - 1900) ≡ y = omega arith in rw (pos-add 1900 (y - 1900), e) (ground arith)

abbrev fields : ℕ → ℕ → ℕ → ℕ → ℕ → ℕ → ℤ → ℤ → Tm
fields s m h d k y wday yday = record {
  sec = pos s;
  min = pos m;
  hour = pos h;
  mday = pos (d + 1);
  mon = pos k;
  year = pos (y - 1900);
  wday = wday;
  yday = yday;
}

not_negative : (n : ℕ) → ltb_ℤ (pos n) (pos 0) ≡ false
not_negative n = ground arith

not_below : (a b : ℕ) → a ≤ b → ltb_ℤ (pos b) (pos a) ≡ false
not_below a b h = ground arith

normalize-same :
    (maxyear s m h k y d days : ℕ) (wday yday : ℤ)
    → s < 60
    → m < 60
    → h < 24
    → k < 12
    → 1900 ≤ y
    → y ≤ maxyear
    → maxyear < 2 ^ 31
    → days_in y k ≡ ok days
    → d < days
    → finish (fields s m h d k y wday yday) (record { year = y; mon = k; mday = pos (d + 1) })
      ≡ fields s m h d k y wday yday
    → normalize maxyear (fields s m h d k y wday yday) ≡ ok (fields s m h d k y wday yday)
unfolding normalize
normalize-same maxyear s m h k y d days wday yday hs hm hh hk hy hmax hint at hd fin =
    let stay =
      to_month-same maxyear days (record { year = y; mon = k; mday = pos (d + 1) }) at
        (not_below 1 (d + 1) (omega arith)) (not_below (d + 1) days (omega arith)) in
    rw (
      norm_same s 60 (pos m) hs,
      norm_same m 60 (pos h) hm,
      norm_same h 24 (pos (d + 1)) hh,
      norm_same k 12 (pos (y - 1900)) hk,
      int-year y maxyear hy hmax hint,
      not_negative (y - 1900),
      not_below y maxyear hmax,
      stay,
      fin,
    )

mktime-normal :
    (maxyear : ℕ) (v : ℤ) (tm : Tm)
    → normalize maxyear tm ≡ ok tm
    → systime (febdays (pos_part tm.year + 1900)) tm ≡ v
    → mktime maxyear tm ≡ ok (v, tm)
unfolding mktime
mktime-normal maxyear v tm e e' = rw (e, e')

mktime-fields :
    (maxyear s m h n k y d days yday t : ℕ)
    → s < 60
    → m < 60
    → h < 24
    → k < 12
    → y ≡ 1970 + n
    → y ≤ maxyear
    → maxyear < 2 ^ 31
    → days_in y k ≡ ok days
    → d < days
    → days_before k (daysmon (febdays y)) + d ≡ yday
    → (days_of_years n 1970 + yday) * 86400 + h * 3600 + m * 60 + s ≡ t
    → let tm = fields s m h d k y (pos ((days_of_years n 1970 + yday + 4) % 7)) (pos yday) in
      mktime maxyear tm ≡ ok (pos t, tm)
mktime-fields maxyear s m h n k y d days yday t hs hm hh hk hy hmax hint at hd rest total =
    let day = days_of_years n 1970 + yday in
    let tm = fields s m h d k y (pos ((day + 4) % 7)) (pos yday) in
    let fin = finish-same tm n y yday k d day hy refl rest in
    let normal =
      normalize-same maxyear s m h k y d days (pos ((day + 4) % 7)) (pos yday) hs hm hh hk
        (omega arith) hmax hint at hd fin in
    let back_1900 : y - 1900 + 1900 ≡ y = omega arith in
    let elapsed : y - 1900 + 1900 - 1970 ≡ n = omega arith in
    mktime-normal maxyear (pos t) tm normal (
      systime-pos (febdays (y - 1900 + 1900)) s m h (days_of_years n 1970)
        (days_before k (daysmon (febdays y))) d tm refl refl refl refl (rw elapsed) (rw back_1900)
      ∙ ap pos (omega arith))

-- `mktime` of what `gmtime` returns for a time is the time, and leaves the fields as they are. The
-- year is not above _MAXYEAR, which fits an int.
pub mktime-gmtime :
    (maxyear t : ℕ)
    → (year_of (t / 86400) 1970 (t / 86400)).0 ≤ maxyear
    → maxyear < 2 ^ 31
    → (tm : Tm) × (gmtime t ≡ ok tm) × (mktime maxyear tm ≡ ok (pos t, tm))
mktime-gmtime maxyear t hy hmax =
    let (n, y, yday, k, d, m, eq, years, total, at, within, inside, rest, same) = gmtime-fields t in
    (
      fields (t % 86400 % 60) (t % 86400 / 60 % 60) (t % 86400 / 60 / 60) d k y
          (pos ((days_of_years n 1970 + yday + 4) % 7)) (pos yday),
      rw total eq,
      mktime-fields maxyear (t % 86400 % 60) (t % 86400 / 60 % 60) (t % 86400 / 60 / 60) n k y d m
          yday t (omega arith) (omega arith) (omega arith) inside years (rw same hy) hmax at within
          rest (omega arith),
    )
