-- ===== src/Tests/Files.antt =====
-- Two days of files: what the flushes queue, and the paths.
use mathlib.Core.List.Permᴰ
use mathlib.Core.List.{Permᴰ}
use cdrrs.Base.{
  ℕ, ◌+◌, ◌/◌, ◌%◌, ◌≤◌, ◌≡◌, refl, inl, inr, Bool, true, false, List, [], ◌∷◌, ◌++◌, none, some,
  leb, if◌then◌else◌, Result, ok, err, All, Bytes, codes, arith, Bool-cases, equal,
}
use cdrrs.Bytes.{split}
use cdrrs.Service.Synth.{Crash}
use cdrrs.Service.Files.{
  FileInfo, FileInfoX, Parser, Disk, Machine, flush_files, finished, unfinished, queue_finished,
  queue_unfinished, sort_file_list, roll, roll_if_over,
}
use cdrrs.Service.Files.Calendar.{
  Date, parse_date, next_date, format_path, days_in, checked, format_date,
}
use cdrrs.Service.Files.Paths.{IsDate}
use cdrrs.Service.Files.Days
use cdrrs.Service.Files.Once
use cdrrs.Service.Files.Days.{run_flushes, run_flushes-IsOn, Reaches}
use cdrrs.Service.Files.Queue.{Ascending, IsSort}
use cdrrs.Service.Files.Once.{run_flushes-Before}

unfoldable insert_by_time : FileInfoX → List FileInfoX → List FileInfoX
insert_by_time x [] = x ∷ []
insert_by_time x (y ∷ ys) =
    let rest = insert_by_time x ys in if leb x.dtime y.dtime then x ∷ y ∷ ys else y ∷ rest

unfoldable insertion_sort : List FileInfoX → List FileInfoX
insertion_sort [] = []
insertion_sort (x ∷ xs) = insert_by_time x (insertion_sort xs)

insert_by_time-Permᴰ : (x : FileInfoX) (ys : List FileInfoX) → Permᴰ (insert_by_time x ys) (x ∷ ys)
unfolding insert_by_time
insert_by_time-Permᴰ x [] = Permᴰ.cons refl Permᴰ.nil
insert_by_time-Permᴰ x (y ∷ ys) = elim (Bool-cases (leb x.dtime y.dtime)) [
  | inl e ↦ rw e (Permᴰ.refl (x ∷ y ∷ ys))
  | inr n ↦ rw n (Permᴰ.trans (Permᴰ.cons refl (insert_by_time-Permᴰ x ys)) (Permᴰ.swap refl refl))
]

sort-Permᴰ : (xs : List FileInfoX) → Permᴰ (insertion_sort xs) xs
unfolding insertion_sort
sort-Permᴰ [] = Permᴰ.nil
sort-Permᴰ (x ∷ xs) =
    Permᴰ.trans (insert_by_time-Permᴰ x (insertion_sort xs)) (Permᴰ.cons refl (sort-Permᴰ xs))

All-insert_by_time :
    (P : FileInfoX → Type 0) (x : FileInfoX) (ys : List FileInfoX)
    → P x
    → All P ys
    → All P (insert_by_time x ys)
unfolding insert_by_time
All-insert_by_time P x [] h k = (h, tt)
All-insert_by_time P x (y ∷ ys) h (k, ks) = elim (Bool-cases (leb x.dtime y.dtime)) [
  | inl e ↦ rw e (h, (k, ks))
  | inr n ↦ rw n (k, All-insert_by_time P x ys h ks)
]

below :
    (a b : ℕ) (ys : List FileInfoX)
    → a ≤ b
    → All (λ (y : FileInfoX). b ≤ y.dtime) ys
    → All (λ (y : FileInfoX). a ≤ y.dtime) ys
below a b [] h k = tt
below a b (y ∷ ys) h (k, ks) = (omega (arith, h, k), below a b ys h ks)

leb→le : (a b : ℕ) → leb a b ≡ true → a ≤ b
leb→le a b h = ground arith

not_leb→le : (a b : ℕ) → leb a b ≡ false → b ≤ a
not_leb→le a b h = ground arith

insert_by_time-Ascending :
    (x : FileInfoX) (ys : List FileInfoX) → Ascending ys → Ascending (insert_by_time x ys)
unfolding insert_by_time
insert_by_time-Ascending x [] h = (tt, tt)
insert_by_time-Ascending x (y ∷ ys) (h, hs) = elim (Bool-cases (leb x.dtime y.dtime)) [
  | inl e ↦ rw e ((leb→le _ _ e, below x.dtime y.dtime ys (leb→le _ _ e) h), (h, hs))
  | inr n ↦ rw n (
    All-insert_by_time (λ z. y.dtime ≤ z.dtime) x ys (not_leb→le _ _ n) h,
    insert_by_time-Ascending x ys hs,
  )
]

sort-Ascending : (xs : List FileInfoX) → Ascending (insertion_sort xs)
unfolding insertion_sort
sort-Ascending [] = tt
sort-Ascending (x ∷ xs) = insert_by_time-Ascending x (insertion_sort xs) (sort-Ascending xs)

-- Times are nanoseconds, and the clock shows the microseconds of the day.
abbrev machine : Machine
machine = record {
  clock = λ t. t % 86400000000000 / 1000;
  join_root = λ path. codes "root/" ++ path;
  sort = insertion_sort;
}

abbrev is_sort : IsSort machine
is_sort = record { sort-Permᴰ = sort-Permᴰ; sort-Ascending = sort-Ascending }

abbrev day : ℕ
day = 86400000000000

abbrev file : Bytes → ℕ → FileInfo
file name after = record { name = name; mod_time = day + after }

abbrev leap_day : Date
leap_day = record { year = 2024; month = 2; day = 29 }

is_date : IsDate leap_day
unfolding days_in
is_date = record {
  year_small = omega arith;
  month_any = omega arith;
  month_small = omega arith;
  day_any = omega arith;
  day_small = omega arith;
}

abbrev listing : List FileInfo
listing =
    file (codes "b.txt") 9000000
    ∷ file (codes "a.txt") 5000000
    ∷ file (codes "b.txt.ok") 9000000
    ∷ []

abbrev disk : (Bytes → Bool) → ℕ → Disk
disk exist today = record {
  dir_info = some listing;
  exist = exist;
  exist_later = exist;
  today = today;
}

abbrev b_is_finished : Bytes → Bool
b_is_finished = equal (codes "root/202402/20240229/b.txt.ok")

abbrev start : Parser
start = record {
  current_days_path = codes "202402/20240229";
  files = [];
  newest_written_time = none;
}

unfoldable names : List FileInfoX → List Bytes
names [] = []
names (x ∷ files) = x.name ∷ names files

unfoldable after_flush : Result Crash Parser → List Bytes × Bytes
after_flush (ok p) = (names p.files, p.current_days_path)
after_flush (err e) = ([], [])

start_path : start.current_days_path ≡ format_path leap_day
unfolding format_path format_date
start_path = refl

-- The finished file is queued, and the other one when the day is over.
flushed :
    after_flush (run_flushes machine (disk b_is_finished 29 ∷ disk b_is_finished 1 ∷ []) start)
    ≡ (codes "b.txt" ∷ codes "a.txt" ∷ [], codes "202403/20240301")
unfolding after_flush run_flushes flush_files finished unfinished queue_finished queue_unfinished
    sort_file_list roll roll_if_over parse_date checked days_in next_date format_path format_date
    insertion_sort insert_by_time names split
flushed = refl

run_flushes-IsOn_example :
    Reaches machine
      (Days.IsOn machine 0)
      (run_flushes machine (disk b_is_finished 29 ∷ disk b_is_finished 1 ∷ []) start)
run_flushes-IsOn_example =
    run_flushes-IsOn machine (disk b_is_finished 29 ∷ disk b_is_finished 1 ∷ []) start
      (record { date = leap_day; is_date = is_date; path_is = start_path; soon = omega arith })

abbrev all_finished : Bytes → Bool
all_finished name = true

disk-IsOn : (exist : Bytes → Bool) → Once.IsOn machine is_sort day leap_day (disk exist 29)
disk-IsOn exist = record {
  today_is = refl;
  of_day = ((omega arith, refl), ((omega arith, refl), ((omega arith, refl), tt)));
}

run_flushes-Before_example :
    (q : Parser) × (r : Parser) × (b : List FileInfoX) × (c : List FileInfoX) × (run_flushes machine
        (disk b_is_finished 29 ∷ [])
        start
      ≡ ok q)
    × (run_flushes machine (disk all_finished 29 ∷ []) q ≡ ok r)
    × (r.files ≡ start.files ++ (b ++ c))
    × Ascending (b ++ c)
    × Once.Before machine is_sort day b c
run_flushes-Before_example =
    run_flushes-Before machine is_sort day leap_day (disk b_is_finished 29 ∷ [])
      (disk all_finished 29 ∷ []) start is_date start_path (disk-IsOn b_is_finished, tt)
      (disk-IsOn all_finished, tt)
