-- ===== src/Service/Files/Paths.antt =====
-- The paths of the days: each is read back, and leads to the next day.
use cdrrs.Base.{
  ℕ, ◌+◌, ◌*◌, ◌/◌, ◌%◌, ◌≤◌, ◌<◌, ◌≡◌, refl, ap, ◌∙◌, true, List, [], ◌∷◌, ◌++◌, some, ltb, ltb→lt,
  codes, Bytes, arith, Bool-cases, inl, inr, get_elem?,
}
use cdrrs.Bytes.{split, join}
use cdrrs.Bytes.Split.{Without, split-join}
use cdrrs.Service.Files.Calendar.{
  Date, days_in, is_digit, two, checked, parse_date, next_date, print_two, print_year, format_date,
  format_path,
}

-- A date of the calendar with a year of four digits.
pub record IsDate (t : Date) : Type 0 where
  pub year_small : t.year < 10000
  pub month_any : 1 ≤ t.month
  pub month_small : t.month ≤ 12
  pub day_any : 1 ≤ t.day
  pub day_small : t.day ≤ days_in t.year t.month

two-print_two : (n : ℕ) → n < 100 → two (b'0' + n / 10) (b'0' + n % 10) ≡ n
two-print_two n h = omega arith

is_digit-tens : (n : ℕ) → n < 100 → is_digit (b'0' + n / 10) ≡ true
is_digit-tens n h = ground arith

is_digit-ones : (n : ℕ) → is_digit (b'0' + n % 10) ≡ true
is_digit-ones n = ground arith

-- Four pairs of digits are read as their numbers.
parse_date-print_two :
    (p q m d : ℕ)
    → p < 100
    → q < 100
    → m < 100
    → d < 100
    → parse_date (print_two p ++ (print_two q ++ (print_two m ++ print_two d)))
      ≡ checked (p * 100 + q) m d
unfolding parse_date
parse_date-print_two p q m d hp hq hm hd =
    rw
      (
        is_digit-tens p hp,
        is_digit-ones p,
        is_digit-tens q hq,
        is_digit-ones q,
        is_digit-tens m hm,
        is_digit-ones m,
        is_digit-tens d hd,
        is_digit-ones d,
      )
      (rw (two-print_two p hp, two-print_two q hq, two-print_two m hm, two-print_two d hd) refl)

checked-some :
    (t : Date) (year : ℕ) → year ≡ t.year → IsDate t → checked year t.month t.day ≡ some t
unfolding checked
checked-some t year e v = rw e (ground (arith, v.day_small, v.day_any, v.month_any, v.month_small))

days_in-any : (year month : ℕ) → 1 ≤ days_in year month
unfolding days_in
days_in-any year month = ground arith

days_in-le : (year month : ℕ) → days_in year month ≤ 31
unfolding days_in
days_in-le year month = ground arith

pub parse_date-format_date : (t : Date) → IsDate t → parse_date (format_date t) ≡ some t
unfolding format_date
parse_date-format_date t v =
    parse_date-print_two (t.year / 100) (t.year % 100) t.month t.day (omega (arith, v.year_small))
      (omega arith) (omega (arith, v.month_small))
      (omega (arith, v.day_small, days_in-le t.year t.month))
    ∙ checked-some t _ (omega arith) v

pub next_date-IsDate : (t : Date) → IsDate t → t.year < 9999 → IsDate (next_date t)
unfolding next_date
next_date-IsDate t v h = elim (Bool-cases (ltb t.day (days_in t.year t.month))) [
  | inl e ↦
      rw (e, next_date)
        (record {
          year_small = v.year_small;
          month_any = v.month_any;
          month_small = v.month_small;
          day_any = omega arith;
          day_small = omega (arith, ltb→lt _ _ e);
        })
  | inr n ↦
      rw (n, next_date)
        (elim (Bool-cases (ltb t.month 12)) [
          | inl e ↦ rw e (record {
            year_small = v.year_small;
            month_any = omega arith;
            month_small = omega (arith, ltb→lt _ _ e);
            day_any = omega arith;
            day_small = days_in-any t.year (t.month + 1);
          })
          | inr m ↦ rw m (record {
            year_small = omega arith;
            month_any = omega arith;
            month_small = omega arith;
            day_any = omega arith;
            day_small = days_in-any (t.year + 1) 1;
          })
        ])
]

-- No digit is a slash.
no_slash-print_two : (n : ℕ) → Without b'/' (print_two n)
no_slash-print_two n = ground arith

no_slash-append : (a b : Bytes) → Without b'/' a → Without b'/' b → Without b'/' (a ++ b)
no_slash-append [] b h k = k
no_slash-append (c ∷ a) b (h, hs) k = (h, no_slash-append a b hs k)

no_slash-print_year : (n : ℕ) → Without b'/' (print_year n)
no_slash-print_year n =
    no_slash-append (print_two (n / 100)) (print_two (n % 100)) (no_slash-print_two (n / 100))
      (no_slash-print_two (n % 100))

no_slash-format_date : (t : Date) → Without b'/' (format_date t)
unfolding format_date
no_slash-format_date t =
    no_slash-append (print_year t.year) (print_two t.month ++ print_two t.day)
      (no_slash-print_year t.year)
      (no_slash-append (print_two t.month) (print_two t.day) (no_slash-print_two t.month)
        (no_slash-print_two t.day))

-- The parts of the path of a day.
pub split-format_path :
    (t : Date)
    → split (codes "/") (format_path t)
      ≡ (print_year t.year ++ print_two t.month) ∷ format_date t ∷ []
unfolding format_path join
split-format_path t =
    split-join b'/' [] (print_year t.year ++ print_two t.month) (format_date t ∷ []) (
      no_slash-append (print_year t.year) (print_two t.month) (no_slash-print_year t.year)
          (no_slash-print_two t.month),
      (no_slash-format_date t, tt),
    )

-- The part behind the slash of the path of a day with a year of four digits is read back as the day.
pub parse_date-format_path :
    (t : Date)
    → IsDate t
    → (sub_path : Bytes) × (get_elem? (split (codes "/") (format_path t)) 1 ≡ some sub_path)
      × (parse_date sub_path ≡ some t)
parse_date-format_path t v = (
  format_date t,
  ap (λ (ss : List Bytes). get_elem? ss 1) (split-format_path t),
  parse_date-format_date t v,
)
