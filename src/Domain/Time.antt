-- ===== src/Domain/Time.antt =====
-- `time.Parse(time.RFC3339, …)`, `Before` and `Format(time.RFC3339)` of Go's time package, as the
-- recovery domain and the coordinator use them. An instant is in nanoseconds from two days before
-- the year 0, so that an offset never goes below zero.
use mathlib.Core.Option
use effexor_win_doctor.Prelude.{
  ℕ, zero, suc, String, str_append, ◌+◌, ◌-◌, ◌*◌, ◌/◌, ◌%◌, ◌^◌, ◌≡◌, refl, Bool, true, false,
  Option, none, some, List, [], ◌∷◌, ◌&&◌, ◌||◌, leb, ltb, eqb, if◌then◌else◌, codes, itoa,
  is_empty, not,
}

abbrev is_digit : ℕ → Bool
is_digit c = leb b'0' c && leb c b'9'

infixl 5 ◌>>=◌
abbrev ◌>>=◌ {ℓ κ} : {A : Type ℓ} {B : Type κ} → Option A → (A → Option B) → Option B
none >>= f = none
some a >>= f = f a

abbrev when : Bool → Option (Unit {0})
when true = some tt
when false = none

infixl 5 ◌>>◌
abbrev ◌>>◌ {κ} : {B : Type κ} → Option (Unit {0}) → Option B → Option B
none >> k = none
some u >> k = k

-- One character that the layout wants.
skip : ℕ → List ℕ → Option (List ℕ)
skip d [] = none
skip d (c ∷ s) = if eqb c d then some s else none

two_digits : List ℕ → Option (ℕ × List ℕ)
two_digits (a ∷ b ∷ s) =
    if is_digit a && is_digit b then some ((a - b'0') * 10 + (b - b'0'), s) else none
two_digits _ = none

-- The hour may have one digit.
hour_digits : List ℕ → Option (ℕ × List ℕ)
unfolding two_digits
hour_digits (a ∷ []) = if is_digit a then some (a - b'0', []) else none
hour_digits (a ∷ b ∷ s) =
    if is_digit a && is_digit b
    then some ((a - b'0') * 10 + (b - b'0'), s)
    else if is_digit a
    then some (a - b'0', b ∷ s)
    else none
hour_digits _ = none

four_digits : List ℕ → Option (ℕ × List ℕ)
unfolding two_digits
four_digits s = do
  (high, s') ← two_digits s
  (low, s'') ← two_digits s'
  some (high * 100 + low, s'')

is_leap : ℕ → Bool
is_leap y = eqb (y % 4) 0 && (not (eqb (y % 100) 0) || eqb (y % 400) 0)

-- The days before 1 January of a year; the year 0 is a leap year.
days_before_year : ℕ → ℕ
days_before_year y = 365 * y + (y + 3) / 4 + (y + 399) / 400 - (y + 99) / 100

month_lengths : Bool → List ℕ
month_lengths leap =
    31 ∷ (if leap then 29 else 28) ∷ 31 ∷ 30 ∷ 31 ∷ 30 ∷ 31 ∷ 31 ∷ 30 ∷ 31 ∷ 30 ∷ 31 ∷ []

-- The days before a month that is counted from 0, and that month's length; 0 if there is none.
month_at : List ℕ → ℕ → ℕ × ℕ
month_at [] m = (0, 0)
month_at (n ∷ ns) zero = (0, n)
month_at (n ∷ ns) (suc m) = let (before, len) = month_at ns m in (n + before, len)

date_days : ℕ → ℕ → ℕ → Option ℕ
unfolding is_leap days_before_year month_lengths month_at
date_days year month day =
    let (before, len) = month_at (month_lengths (is_leap year)) (month - 1) in
    if leb 1 month && leb 1 day && leb day len
    then some (days_before_year year + before + (day - 1))
    else none

-- The digits of a fraction; those past the ninth count for nothing.
fraction_digits : ℕ → ℕ → List ℕ → ℕ × List ℕ
fraction_digits scale acc [] = (acc, [])
fraction_digits scale acc (c ∷ s) =
    let rest = fraction_digits (scale / 10) (acc + (c - b'0') * scale) s in
    if is_digit c then rest else (acc, c ∷ s)

-- A fraction stands after a full stop or a comma, and has a digit.
fraction : List ℕ → ℕ × List ℕ
unfolding fraction_digits
fraction (p ∷ c ∷ s) =
    if (eqb p b'.' || eqb p b',') && is_digit c
    then fraction_digits (10 ^ 8) 0 (c ∷ s)
    else (0, p ∷ c ∷ s)
fraction s = (0, s)

-- The seconds to take off, from two days more: `Z`, or a sign with hours and minutes, to the end.
zone_hours : List ℕ → Option ℕ
unfolding two_digits skip
zone_hours s = do
  (hours, s') ← two_digits s
  s'' ← skip b':' s'
  (minutes, s''') ← two_digits s''
  when (leb hours 24 && leb minutes 60 && is_empty s''')
  some (hours * 3600 + minutes * 60)

zone : List ℕ → Option ℕ
unfolding zone_hours
zone [] = none
zone (c ∷ s) =
    if eqb c b'Z'
    then (if is_empty s then some 172800 else none)
    else if eqb c b'+'
    then (do off ← zone_hours s; some (172800 - off))
    else if eqb c b'-'
    then (do off ← zone_hours s; some (172800 + off))
    else none

parse_codes : List ℕ → Option ℕ
unfolding four_digits two_digits hour_digits skip fraction zone date_days
parse_codes s0 = do
  (year, s1) ← four_digits s0
  s2 ← skip b'-' s1
  (month, s3) ← two_digits s2
  s4 ← skip b'-' s3
  (day, s5) ← two_digits s4
  s6 ← skip b'T' s5
  (hour, s7) ← hour_digits s6
  s8 ← skip b':' s7
  (minute, s9) ← two_digits s8
  s10 ← skip b':' s9
  (second, s11) ← two_digits s10
  let (nanos, s12) = fraction s11
  offset ← zone s12
  days ← date_days year month day
  when (ltb hour 24 && ltb minute 60 && ltb second 60)
  some ((days * 86400 + hour * 3600 + minute * 60 + second + offset) * 10 ^ 9 + nanos)

unfoldable pub parse : String → Option ℕ
unfolding parse_codes
parse s = parse_codes (codes s)

-- The year that a day falls in: the mean year gives it up to one.
year_of : ℕ → ℕ
unfolding days_before_year
year_of days =
    let y = days * 400 / 146097 in
    if leb (days_before_year (y + 1)) days
    then y + 1
    else if leb (days_before_year y) days
    then y
    else y - 1

month_of : List ℕ → ℕ → ℕ → ℕ × ℕ
month_of [] m d = (m, d)
month_of (n ∷ ns) m d = let rest = month_of ns (m + 1) (d - n) in if ltb d n then (m, d) else rest

pad_two : ℕ → String
pad_two n = if ltb n 10 then str_append "0" (itoa n) else itoa n

pad_four : ℕ → String
unfolding pad_two
pad_four n =
    if ltb n 10
    then str_append "000" (itoa n)
    else if ltb n 100
    then str_append "00" (itoa n)
    else if ltb n 1000
    then str_append "0" (itoa n)
    else itoa n

join : List String → String
join [] = ""
join (s ∷ ss) = str_append s (join ss)

-- `UTC().Format(time.RFC3339)`: the nanoseconds are dropped.
unfoldable pub format : ℕ → String
unfolding days_before_year is_leap month_lengths year_of month_of pad_two pad_four join itoa
format t =
    let seconds = t / 10 ^ 9 - 172800 in
    let days = seconds / 86400 in
    let year = year_of days in
    let (month, day) = month_of (month_lengths (is_leap year)) 1 (days - days_before_year year) in
    join (
      pad_four year
      ∷ "-"
      ∷ pad_two month
      ∷ "-"
      ∷ pad_two (day + 1)
      ∷ "T"
      ∷ pad_two (seconds % 86400 / 3600)
      ∷ ":"
      ∷ pad_two (seconds % 3600 / 60)
      ∷ ":"
      ∷ pad_two (seconds % 60)
      ∷ "Z"
      ∷ [])

parse_test : parse "1970-01-01T00:00:00Z" ≡ some ((719528 * 86400 + 172800) * 10 ^ 9)
unfolding parse
parse_test = refl

offset_test : parse "2026-03-01T01:30:00.5+02:00" ≡ parse "2026-02-28T23:30:00,50Z"
unfolding parse
offset_test = refl

format_test : Option.map format (parse "2024-02-29T23:59:59.9-01:00") ≡ some "2024-03-01T00:59:59Z"
unfolding parse format
format_test = refl
