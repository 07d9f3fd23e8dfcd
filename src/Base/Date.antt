-- ===== src/Base/Date.antt =====
-- Python's `datetime.date`, by its proleptic ordinal (`date.toordinal()`, 1 is 0001-01-01): dates
-- compare as their ordinals do.
use Prim.Native.Nat.{ℕ, ◌+◌, ◌-◌, ◌*◌, ◌/◌, ◌%◌}
use Prim.Native.String.{String, ◌++◌}
use mathlib.Core.Path.{◌≡◌, refl}
use mathlib.Core.Bool.{Bool, true, false, not, ◌&&◌, ◌||◌}
use mathlib.Core.Option.{Option, none, some}
use legal_graphrag_platform.Base.Tests.{ltb, leb, eqb, if◌then◌else◌}
use legal_graphrag_platform.Base.Text.{show_nat}
use legal_graphrag_platform.Base.Result.{Result, ok, raise, fail_if, value_error, ◌>>◌}

abbrev pub Date : Type 0
Date = ℕ

-- `date is None or a <= date`-style tests on a half-open interval are written out at their uses.
abbrev pub opt_date_eq : Option Date → Option Date → Bool
opt_date_eq none none = true
opt_date_eq (some a) (some b) = eqb a b
opt_date_eq _ _ = false

days_before_month : ℕ → ℕ → ℕ
days_before_month leap m =
    (if leb m 1
      then 0
      else if leb m 2
      then 31
      else if leb m 3
      then 59
      else if leb m 4
      then 90
      else if leb m 5
      then 120
      else if leb m 6
      then 151
      else if leb m 7
      then 181
      else if leb m 8
      then 212
      else if leb m 9
      then 243
      else if leb m 10
      then 273
      else if leb m 11
      then 304
      else 334)
    + (if leb m 2 then 0 else leap)

pad : ℕ → ℕ → String
unfolding show_nat
pad width n =
    (if eqb width 4
      then (if leb 1000 n then "" else if leb 100 n then "0" else if leb 10 n then "00" else "000")
      else (if leb 10 n then "" else "0"))
    ++ show_nat n

month_and_day : ℕ → ℕ → ℕ → String
unfolding days_before_month pad
month_and_day year leap n =
    let guess = (n + 50) / 32 in
    let month = if ltb n (days_before_month leap guess) then guess - 1 else guess in
    pad 4 year ++ "-" ++ pad 2 month ++ "-" ++ pad 2 (n - days_before_month leap month + 1)

-- `date.isoformat()`, by the steps of Python's `_ord2ymd`
unfoldable pub isoformat : Date → String
unfolding month_and_day
isoformat ordinal =
    let n = ordinal - 1 in
    let n400 = n / 146097 in
    let r400 = n % 146097 in
    let n100 = r400 / 36524 in
    let r100 = r400 % 36524 in
    let n4 = r100 / 1461 in
    let r4 = r100 % 1461 in
    let n1 = r4 / 365 in
    let r1 = r4 % 365 in
    let year = n400 * 400 + n100 * 100 + n4 * 4 + n1 + 1 in
    let leap = eqb n1 3 && (not (eqb n4 24) || eqb n100 3) in
    if eqb n1 4 || eqb n100 4
    then pad 4 (year - 1) ++ "-12-31"
    else month_and_day year (if leap then 1 else 0) r1

iso_samples :
    (isoformat 1 ≡ "0001-01-01")
    × (isoformat 737425 ≡ "2020-01-01")
    × (isoformat 737790 ≡ "2020-12-31")
    × (isoformat 737484 ≡ "2020-02-29")
unfolding isoformat
iso_samples = (refl, refl, refl, refl)

-- `calendar.isleap`
abbrev is_leap : ℕ → Bool
is_leap year = eqb (year % 4) 0 && (not (eqb (year % 100) 0) || eqb (year % 400) 0)

-- `calendar.monthrange(year, month)[1]`
abbrev pub days_in_month : ℕ → ℕ → ℕ
days_in_month year month =
    if eqb month 2
    then (if is_leap year then 29 else 28)
    else if eqb month 4 || eqb month 6 || eqb month 9 || eqb month 11
    then 30
    else 31

-- The ordinal of a date that exists, by Python's `_ymd2ord`
unfoldable pub ordinal_of : ℕ → ℕ → ℕ → Date
unfolding days_before_month
ordinal_of year month day =
    let y = year - 1 in
    y * 365
    + y / 4
    - y / 100
    + y / 400
    + days_before_month (if is_leap year then 1 else 0) month
    + day

-- `date(year, month, day)`
unfoldable pub make_date : ℕ → ℕ → ℕ → Result Date
unfolding ordinal_of
make_date year month day = do
  fail_if (ltb year 1 || ltb 9999 year) value_error "year is out of range"
  fail_if (ltb month 1 || ltb 12 month) value_error "month must be in 1..12"
  fail_if (ltb day 1 || ltb (days_in_month year month) day) value_error
      "day is out of range for month"
  ok (ordinal_of year month day)

ordinal_samples :
    (make_date 2020 2 29 ≡ ok 737484)
    × (make_date 2020 12 31 ≡ ok 737790)
    × (make_date 1 1 1 ≡ ok 1)
    × (make_date 0 1 1 ≡ raise value_error "year is out of range")
unfolding make_date
ordinal_samples = (refl, refl, refl, refl)
