-- ===== src/Service/Files/Calendar.antt =====
-- The dates of service/parser.go: `time.Parse("20060102", s)`, a day more, and
-- `Format("200601/20060102")`, for the years of four digits.
use cdrrs.Base.{
  ℕ, ◌+◌, ◌-◌, ◌*◌, ◌/◌, ◌%◌, Bool, not, ◌&&◌, ◌||◌, [], ◌∷◌, ◌++◌, Option, none, some, ◌==◌, ltb,
  leb, if◌then◌else◌, Bytes,
}

pub record Date : Type 0 where
  pub year : ℕ
  pub month : ℕ
  pub day : ℕ

abbrev pub is_leap : ℕ → Bool
is_leap year = (year % 4 == 0) && (not (year % 100 == 0) || (year % 400 == 0))

unfoldable pub days_in : ℕ → ℕ → ℕ
days_in year month =
    if month == 2
    then (if is_leap year then 29 else 28)
    else if month == 4 || month == 6 || month == 9 || month == 11
    then 30
    else 31

-- Two digits, as a number.
abbrev pub is_digit : ℕ → Bool
is_digit c = leb b'0' c && leb c b'9'

abbrev pub two : ℕ → ℕ → ℕ
two a b = (a - b'0') * 10 + (b - b'0')

-- The month and the day are checked against the calendar.
unfoldable pub checked : ℕ → ℕ → ℕ → Option Date
checked year month day =
    if leb 1 month && leb month 12 && leb 1 day && leb day (days_in year month)
    then some (record { year = year; month = month; day = day })
    else none

unfoldable pub parse_date : Bytes → Option Date
unfolding checked
parse_date (a ∷ b ∷ c ∷ d ∷ e ∷ f ∷ g ∷ h ∷ []) =
    if is_digit a
      && is_digit b
      && is_digit c
      && is_digit d
      && is_digit e
      && is_digit f
      && is_digit g
      && is_digit h
    then checked (two a b * 100 + two c d) (two e f) (two g h)
    else none
parse_date _ = none

-- `t.Add(time.Hour * 24)`: the time is in UTC, so that every day has 24 hours.
unfoldable pub next_date : Date → Date
next_date t =
    if ltb t.day (days_in t.year t.month)
    then record t { day = t.day + 1 }
    else if ltb t.month 12
    then record t { month = t.month + 1; day = 1 }
    else record { year = t.year + 1; month = 1; day = 1 }

abbrev pub print_two : ℕ → Bytes
print_two n = (b'0' + n / 10) ∷ (b'0' + n % 10) ∷ []

abbrev pub print_year : ℕ → Bytes
print_year n = print_two (n / 100) ++ print_two (n % 100)

unfoldable pub format_date : Date → Bytes
format_date t = print_year t.year ++ (print_two t.month ++ print_two t.day)

unfoldable pub format_path : Date → Bytes
unfolding format_date
format_path t = print_year t.year ++ (print_two t.month ++ b'/' ∷ format_date t)
