-- ===== src/Service/Files/Queue.antt =====
-- The queue of the files of a day: by the times they were written, each in one flush only.
use mathlib.Core.List.{Permᴰ}
use cdrrs.Base.{
  All-Permᴰ, is_empty-Permᴰ, ℕ, ◌-◌, ◌/◌, ◌≤◌, ◌<◌, ◌≡◌, refl, sym, ◌∙◌, inl, inr, Bool, true,
  false, List, [], ◌∷◌, ◌++◌, append-nil, Option, Bool-cases, codes, is_empty, ltb, ltb→lt, Bytes,
  arith, All,
}
use cdrrs.Service.Files.{
  Parser, FileInfo, FileInfoX, Machine, clock_of, ok_file, has_suffix, last_time, queue_finished,
  finished, sort_file_list,
}

-- In the order of their times.
abbrev pub Ascending : List FileInfoX → Type 0
Ascending [] = Unit {0}
Ascending (x ∷ files) = All (λ y. x.dtime ≤ y.dtime) files × Ascending files

-- What `sort.Sort` promises.
pub record IsSort (machine : Machine) : Type 0 where
  pub sort-Permᴰ : (files : List FileInfoX) → Permᴰ (machine.sort files) files
  pub sort-Ascending : (files : List FileInfoX) → Ascending (machine.sort files)

module _ (machine : Machine) (is : IsSort machine) (midnight : ℕ) where
  -- A moment of the day that starts at `midnight`, in nanoseconds.
  abbrev pub IsOfDay : ℕ → Type 0
  IsOfDay t = (midnight ≤ t) × (machine.clock t ≡ (t - midnight) / 1000)

  -- A file that may be queued: of the day, finished, and newer than what was queued.
  abbrev pub IsNew : Bytes → (Bytes → Bool) → Option ℕ → FileInfoX → Type 0
  IsNew path exist newest x =
      IsOfDay x.dtime
      × (exist (ok_file machine path x.name) ≡ true)
      × (clock_of machine newest < machine.clock x.dtime)

  pub finished-IsNew :
      (path : Bytes) (exist : Bytes → Bool) (newest : Option ℕ) (infos : List FileInfo)
      → All (λ (i : FileInfo). IsOfDay i.mod_time) infos
      → All (IsNew path exist newest) (finished machine path exist newest infos).1
  unfolding finished
  finished-IsNew path exist newest [] h = tt
  finished-IsNew path exist newest (info ∷ infos) (h, hs) =
      let rest = finished-IsNew path exist newest infos hs in
      elim (Bool-cases (has_suffix info.name (codes ".txt"))) [
        | inr n ↦ rw n rest
        | inl y ↦ rw y (elim (Bool-cases (exist (ok_file machine path info.name))) [
          | inr n ↦ rw n rest
          | inl e ↦
              rw e
                (elim (Bool-cases (ltb (clock_of machine newest) (machine.clock info.mod_time))) [
                  | inr n ↦ rw n rest
                  | inl l ↦ rw l ((h, e, ltb→lt _ _ l), rest)
                ])
        ])
      ]

  pub All-imp :
      (P Q : FileInfoX → Type 0) (files : List FileInfoX)
      → ((x : FileInfoX) → P x → Q x)
      → All P files
      → All Q files
  All-imp P Q [] f h = tt
  All-imp P Q (x ∷ files) f (h, hs) = (f x h, All-imp P Q files f hs)

  pub clock_mono : (a b : ℕ) → IsOfDay a → IsOfDay b → a ≤ b → machine.clock a ≤ machine.clock b
  clock_mono a b (ma, ca) (mb, cb) h = omega arith

  -- The last file of an ascending list is the newest.
  last_time-max :
      (x : FileInfoX) (files : List FileInfoX)
      → Ascending (x ∷ files)
      → All (λ (y : FileInfoX). IsOfDay y.dtime) (x ∷ files)
      → All
          (λ (y : FileInfoX).
            machine.clock y.dtime ≤ clock_of machine (last_time machine (x ∷ files)))
          (x ∷ files)
  last_time-max x [] a (d, ds) = (omega arith, tt)
  last_time-max x (y ∷ files) ((xy, xs), a) (d, (e, es)) =
      let (yt, older) = last_time-max y files a (e, es) in
      (omega (arith, clock_mono x.dtime y.dtime d e xy, yt), (yt, older))

  -- What the finished files of a flush add to the queue: all newer than what was queued of the day,
  -- in the order of their times, and none newer than what counts as the newest then.
  pub record Adds (p q : Parser) (batch : List FileInfoX) : Type 0 where
    pub files_are : q.files ≡ p.files ++ batch
    pub path_is : q.current_days_path ≡ p.current_days_path
    pub ascending : Ascending batch
    pub of_day : All (λ (x : FileInfoX). IsOfDay x.dtime) batch
    pub newer :
        All
          (λ (x : FileInfoX). clock_of machine p.newest_written_time < machine.clock x.dtime)
          batch
    pub older :
        All
          (λ (x : FileInfoX). machine.clock x.dtime ≤ clock_of machine q.newest_written_time)
          batch
    pub grows : clock_of machine p.newest_written_time ≤ clock_of machine q.newest_written_time

  sorted_batch :
      (p : Parser) (path : Bytes) (exist : Bytes → Bool) (batch : List FileInfoX)
      → is_empty batch ≡ false
      → Ascending batch
      → All (IsNew path exist p.newest_written_time) batch
      → Adds p
          (record p { files = p.files ++ batch; newest_written_time = last_time machine batch })
          batch
  sorted_batch p path exist [] e a h = cc
  sorted_batch p path exist (x ∷ batch) e a (hx, h) =
      let old = last_time-max x batch a (All-imp _ _ (x ∷ batch) (λ y n. n.0) (hx, h)) in
      record {
        files_are = refl;
        path_is = refl;
        ascending = a;
        of_day = All-imp _ _ (x ∷ batch) (λ y n. n.0) (hx, h);
        newer = All-imp _ _ (x ∷ batch) (λ y n. n.2) (hx, h);
        older = old;
        grows = omega (arith, hx.2, old.0);
      }

  -- The finished files of a flush.
  pub queue_finished-Adds :
      (p : Parser) (path : Bytes) (exist : Bytes → Bool) (infos : List FileInfo)
      → All (λ (i : FileInfo). IsOfDay i.mod_time) infos
      → (batch : List FileInfoX) × Adds p
          (queue_finished machine (finished machine path exist p.newest_written_time infos).1 p)
          batch
  unfolding queue_finished sort_file_list
  queue_finished-Adds p path exist infos h =
      let files = (finished machine path exist p.newest_written_time infos).1 in
      let new = finished-IsNew path exist p.newest_written_time infos h in
      elim (Bool-cases (is_empty files)) [
        | inl e ↦ (
          [],
          rw e (record {
            files_are = sym (append-nil p.files);
            path_is = refl;
            ascending = tt;
            of_day = tt;
            newer = tt;
            older = tt;
            grows = omega arith;
          }),
        )
        | inr n ↦ (
          machine.sort files,
          rw n (
              sorted_batch p path exist (machine.sort files)
                (is_empty-Permᴰ (is.sort-Permᴰ files) ∙ n) (is.sort-Ascending files)
                (All-Permᴰ (IsNew path exist p.newest_written_time) (is.sort-Permᴰ files) new)),
        )
      ]
