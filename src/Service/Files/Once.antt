-- ===== src/Service/Files/Once.antt =====
-- The flushes of one day: every file in one of them only, and all in the order of their times.
use mathlib.Core.Path.{subst}
use cdrrs.Base.{
  ℕ, ◌≤◌, ◌<◌, ◌≡◌, refl, sym, ap, ◌∙◌, List, [], ◌∷◌, ◌++◌, append-nil, append_assoc, Option, none,
  some, ==_iff, ok, Option-cases, All, arith, inl, inr,
}
use cdrrs.Service.Files.{
  Parser, Disk, FileInfo, FileInfoX, Machine, finished, queue_finished, flush_files,
}
use cdrrs.Service.Files.Calendar.{Date, format_path}
use cdrrs.Service.Files.Paths.{IsDate}
use cdrrs.Service.Files.Days.{run_flushes, roll_if_over-roll}
use cdrrs.Service.Files.Queue.{Ascending, IsSort, IsOfDay, Adds, All-imp, queue_finished-Adds}

module _ (machine : Machine) (is : IsSort machine) (midnight : ℕ) where
  abbrev pub entries : Disk → List FileInfo
  entries disk = elim disk.dir_info [ none ↦ [] | some infos ↦ infos ]

  -- A flush on the day of the path, which finds files that were written on that day.
  pub record IsOn (t : Date) (disk : Disk) : Type 0 where
    pub today_is : disk.today ≡ t.day
    pub of_day : All (λ (i : FileInfo). IsOfDay machine is midnight i.mod_time) (entries disk)

  none-Adds : (p : Parser) → Adds machine is midnight p p []
  none-Adds p = record {
    files_are = sym (append-nil p.files);
    path_is = refl;
    ascending = tt;
    of_day = tt;
    newer = tt;
    older = tt;
    grows = omega arith;
  }

  flush_files-Adds :
      (t : Date) (disk : Disk) (p : Parser)
      → IsDate t
      → p.current_days_path ≡ format_path t
      → IsOn t disk
      → (q : Parser) × (batch : List FileInfoX) × (flush_files machine disk p ≡ ok q)
        × Adds machine is midnight p q batch
  unfolding flush_files
  flush_files-Adds t disk p v h on = elim (Option-cases disk.dir_info) [
    | inl e ↦ (p, [], rw (e, flush_files) refl, none-Adds p)
    | inr (infos, e) ↦
        let path = machine.join_root p.current_days_path in
        let found = finished machine path disk.exist p.newest_written_time infos in
        let (batch, adds) =
          queue_finished-Adds machine is midnight p path disk.exist infos (days infos e) in
        (
          queue_finished machine found.1 p,
          batch,
          rw (e, flush_files)
              (roll_if_over-roll machine path disk infos found.0 t
                  (queue_finished machine found.1 p) v (adds.path_is ∙ h)
                ∙ rw ((==_iff disk.today t.day).1 on.today_is) refl),
          adds,
        )
  ]
    where
      days :
          (infos : List FileInfo)
          → disk.dir_info ≡ some infos
          → All (λ (i : FileInfo). IsOfDay machine is midnight i.mod_time) infos
      days infos e =
          subst
            (λ (o : Option (List FileInfo)).
              All (λ (i : FileInfo). IsOfDay machine is midnight i.mod_time)
                (elim o [ none ↦ [] | some l ↦ l ]))
            e on.of_day

  All-append :
      (P : FileInfoX → Type 0) (xs ys : List FileInfoX) → All P xs → All P ys → All P (xs ++ ys)
  All-append P [] ys h k = k
  All-append P (x ∷ xs) ys (h, hs) k = (h, All-append P xs ys hs k)

  -- The files of one flush are older than those of a later one.
  abbrev pub Before : List FileInfoX → List FileInfoX → Type 0
  Before xs ys =
      All
        (λ (x : FileInfoX).
          All (λ (y : FileInfoX). machine.clock x.dtime < machine.clock y.dtime) ys)
        xs

  Ascending-append :
      (xs ys : List FileInfoX)
      → Ascending xs
      → Ascending ys
      → All (λ (x : FileInfoX). IsOfDay machine is midnight x.dtime) xs
      → All (λ (x : FileInfoX). IsOfDay machine is midnight x.dtime) ys
      → Before xs ys
      → Ascending (xs ++ ys)
  Ascending-append [] ys a b d e f = b
  Ascending-append (x ∷ xs) ys (ax, a) b (dx, d) e (fx, f) =
      (All-append _ xs ys ax (older ys e fx), Ascending-append xs ys a b d e f)
    where
      older :
          (ys : List FileInfoX)
          → All (λ (x : FileInfoX). IsOfDay machine is midnight x.dtime) ys
          → All (λ (y : FileInfoX). machine.clock x.dtime < machine.clock y.dtime) ys
          → All (λ (y : FileInfoX). x.dtime ≤ y.dtime) ys
      older [] e f = tt
      older (y ∷ ys) ((my, cy), es) (f, fs) = (omega (arith, dx.0, dx.1), older ys es fs)

  Adds-Before :
      (p q r : Parser) (b c : List FileInfoX)
      → Adds machine is midnight p q b
      → Adds machine is midnight q r c
      → Before b c
  Adds-Before p q r b c v w =
      All-imp machine is midnight _ _ b
        (λ x o. All-imp machine is midnight _ _ c (λ y n. omega (arith, o, n)) w.newer) v.older

  Adds-trans :
      (p q r : Parser) (b c : List FileInfoX)
      → Adds machine is midnight p q b
      → Adds machine is midnight q r c
      → Adds machine is midnight p r (b ++ c)
  Adds-trans p q r b c v w = record {
    files_are = w.files_are ∙ ap (λ l. l ++ c) v.files_are ∙ append_assoc p.files b c;
    path_is = w.path_is ∙ v.path_is;
    ascending =
        Ascending-append b c v.ascending w.ascending v.of_day w.of_day (Adds-Before p q r b c v w);
    of_day = All-append _ b c v.of_day w.of_day;
    newer =
        All-append _ b c v.newer
          (All-imp machine is midnight _ _ c (λ y n. omega (arith, v.grows, n)) w.newer);
    older =
        All-append _ b c
          (All-imp machine is midnight _ _ b (λ x o. omega (arith, w.grows, o)) v.older) w.older;
    grows = omega (arith, v.grows, w.grows);
  }

  run_flushes-Adds :
      (t : Date) (disks : List Disk) (p : Parser)
      → IsDate t
      → p.current_days_path ≡ format_path t
      → All (IsOn t) disks
      → (q : Parser) × (batch : List FileInfoX) × (run_flushes machine disks p ≡ ok q)
        × Adds machine is midnight p q batch
  unfolding run_flushes
  run_flushes-Adds t [] p v h on = (p, [], refl, none-Adds p)
  run_flushes-Adds t (disk ∷ disks) p v h (on, ons) =
      let (q, b, e, x) = flush_files-Adds t disk p v h on in
      let (r, c, f, y) = run_flushes-Adds t disks q v (x.path_is ∙ h) ons in
      (r, b ++ c, rw e f, Adds-trans p q r b c x y)

  -- Over the flushes of a day, on which the path is that of the day and every entry of the directory
  -- was written on that day, by the machine's clock, and over any order that `sort.Sort` may leave
  -- equal times in, whichever of the files each flush finds finished: none panics, the files
  -- that they queue stand in the queue in the order of their times, and each file that is queued by
  -- the first flushes is older than every file that is queued by the others, so none is queued
  -- again.
  pub run_flushes-Before :
      (t : Date) (disks later : List Disk) (p : Parser)
      → IsDate t
      → p.current_days_path ≡ format_path t
      → All (IsOn t) disks
      → All (IsOn t) later
      → (q : Parser) × (r : Parser) × (b : List FileInfoX) × (c : List FileInfoX) × (run_flushes
            machine disks p
          ≡ ok q)
        × (run_flushes machine later q ≡ ok r)
        × (r.files ≡ p.files ++ (b ++ c))
        × Ascending (b ++ c)
        × Before b c
  run_flushes-Before t disks later p v h on ons =
      let (q, b, e, x) = run_flushes-Adds t disks p v h on in
      let (r, c, f, y) = run_flushes-Adds t later q v (x.path_is ∙ h) ons in
      let z = Adds-trans p q r b c x y in
      (q, r, b, c, e, f, z.files_are, z.ascending, Adds-Before p q r b c x y)
