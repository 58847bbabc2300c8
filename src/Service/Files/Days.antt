-- ===== src/Service/Files/Days.antt =====
-- The parser goes from day to day and never leaves the paths of days.
use cdrrs.Base.{
  ℕ, suc, ◌+◌, ◌<◌, ◌≡◌, refl, sym, ap, ◌∙◌, ◌⊎◌, inl, inr, Bool, not, List, [], ◌∷◌, some, ◌==◌,
  if◌then◌else◌, Result, ok, err, length, Option-cases, Bool-cases, codes, get_elem?, Bytes, arith,
}
use mathlib.Core.Path.{subst}
use cdrrs.Bytes.{split}
use cdrrs.Service.Synth.{Crash, ◌>>=◌}
use cdrrs.Service.Files.{
  Parser, Disk, FileInfo, FileInfoX, Machine, flush_files, roll_if_over, roll, queue_finished,
}
use cdrrs.Service.Files.Calendar.{Date, next_date, format_path}
use cdrrs.Service.Files.Paths.{IsDate, parse_date-format_path, next_date-IsDate}

year_next : (t : Date) (n : ℕ) → t.year + suc n < 9999 → (next_date t).year + n < 9999
unfolding next_date
year_next t n h = ground arith

module _ (machine : Machine) where
  -- `FlushFiles`, each time its ticker fires.
  unfoldable pub run_flushes : List Disk → Parser → Result Crash Parser
  run_flushes [] p = ok p
  run_flushes (disk ∷ disks) p = do p' ← flush_files machine disk p; run_flushes disks p'

  path-queue_finished :
      (list : List FileInfoX) (p : Parser)
      → (queue_finished machine list p).current_days_path ≡ p.current_days_path
  unfolding queue_finished
  path-queue_finished list p = ground arith

  -- What a flush leaves: the path of the day, or that of the next day.
  abbrev pub OnDay : Date → Result Crash Parser → Type 0
  OnDay t (err e) = ⊥
  OnDay t (ok p) =
      (p.current_days_path ≡ format_path t) ⊎ (p.current_days_path ≡ format_path (next_date t))

  pub roll_if_over-roll :
      (path : Bytes) (disk : Disk) (infos : List FileInfo) (complete : Bool) (t : Date) (p : Parser)
      → IsDate t
      → p.current_days_path ≡ format_path t
      → roll_if_over machine path disk infos complete p
        ≡ ok (if not (disk.today == t.day) then roll machine path disk infos complete t p else p)
  unfolding roll_if_over
  roll_if_over-roll path disk infos complete t p v h =
      let (sub_path, e, d) = parse_date-format_path t v in
      let at : get_elem? (split (codes "/") p.current_days_path) 1 ≡ some sub_path =
        ap (λ x. get_elem? (split (codes "/") x) 1) h ∙ e in
      rw (at, roll_if_over) (rw d refl)

  path-roll :
      (path : Bytes) (disk : Disk) (infos : List FileInfo) (complete : Bool) (t : Date) (p : Parser)
      → (roll machine path disk infos complete t p).current_days_path ≡ format_path (next_date t)
  unfolding roll
  path-roll path disk infos complete t p = refl

  roll_if_over-OnDay :
      (path : Bytes) (disk : Disk) (infos : List FileInfo) (complete : Bool) (t : Date) (p : Parser)
      → IsDate t
      → p.current_days_path ≡ format_path t
      → OnDay t (roll_if_over machine path disk infos complete p)
  roll_if_over-OnDay path disk infos complete t p v h =
      subst (OnDay t) (sym (roll_if_over-roll path disk infos complete t p v h))
        (elim (Bool-cases (disk.today == t.day)) [
          | inl y ↦ rw y (inl h)
          | inr n ↦ rw n (inr (path-roll path disk infos complete t p))
        ])

  flush_files-OnDay :
      (disk : Disk) (t : Date) (p : Parser)
      → IsDate t
      → p.current_days_path ≡ format_path t
      → OnDay t (flush_files machine disk p)
  unfolding flush_files
  flush_files-OnDay disk t p v h = elim (Option-cases disk.dir_info) [
    | inl e ↦ rw (e, flush_files) (inl h)
    | inr (infos, e) ↦
        rw (e, flush_files)
          (roll_if_over-OnDay _ disk infos _ t (queue_finished machine _ p) v
            (path-queue_finished _ p ∙ h))
  ]

  -- The path is that of a date, with room for `n` flushes before the year 9999.
  pub record IsOn (n : ℕ) (p : Parser) : Type 0 where
    pub date : Date
    pub is_date : IsDate date
    pub path_is : p.current_days_path ≡ format_path date
    pub soon : date.year + n < 9999

  abbrev pub Reaches : (Parser → Type 0) → Result Crash Parser → Type 0
  Reaches P (ok p) = P p
  Reaches P (err e) = ⊥

  step-IsOn :
      (n : ℕ) (t : Date) (m : Result Crash Parser)
      → IsDate t
      → t.year + suc n < 9999
      → OnDay t m
      → Reaches (IsOn n) m
  step-IsOn n t (ok p) v y (inl h) = record {
    date = t;
    is_date = v;
    path_is = h;
    soon = omega arith;
  }
  step-IsOn n t (ok p) v y (inr h) = record {
    date = next_date t;
    is_date = next_date-IsDate t v (omega arith);
    path_is = h;
    soon = year_next t n y;
  }
  step-IsOn n t (err e) v y h = absurd h

  Reaches-bind :
      (P Q : Parser → Type 0) (m : Result Crash Parser) (f : Parser → Result Crash Parser)
      → Reaches P m
      → ((p : Parser) → P p → Reaches Q (f p))
      → Reaches Q (m >>= f)
  Reaches-bind P Q (ok p) f h k = k p h
  Reaches-bind P Q (err e) f h k = absurd h

  -- From the path of a date, whatever the disk holds at each flush and whatever the day is: no flush
  -- panics, and the path is again that of a date. The bound keeps the years within four digits.
  pub run_flushes-IsOn :
      (disks : List Disk) (p : Parser)
      → IsOn (length disks) p
      → Reaches (IsOn 0) (run_flushes disks p)
  unfolding run_flushes
  run_flushes-IsOn [] p v = v
  run_flushes-IsOn (disk ∷ disks) p v =
      Reaches-bind (IsOn (length disks)) (IsOn 0) (flush_files machine disk p) _
        (step-IsOn (length disks) v.date _ v.is_date v.soon
          (flush_files-OnDay disk v.date p v.is_date v.path_is))
        (λ q w. run_flushes-IsOn disks q w)
