-- ===== src/Service/Files.antt =====
-- service/parser.go: the files of a day are queued as they are finished, and the next day follows.
pub mod Calendar
pub mod Paths
pub mod Days
pub mod Queue
pub mod Once
pub mod Workers
pub mod Start
use cdrrs.Base.{
  ℕ, ◌≡◌, ◌&&◌, Bool, true, false, not, List, [], ◌∷◌, ◌++◌, Option, none, some, ◌==◌, ltb,
  if◌then◌else◌, equal, is_empty, codes, length, drop, get_elem?, Result, ok, err, All, Bytes, ◌-◌,
  ◌≤◌,
}
use cdrrs.Bytes.{split}
use cdrrs.Service.Synth.{Crash, panic}
use Calendar.{Date, parse_date, next_date, format_path}

-- An entry of a directory: its name and when it was last written.
pub record FileInfo : Type 0 where
  pub name : Bytes
  pub mod_time : ℕ

pub record FileInfoX : Type 0 where
  pub name : Bytes
  pub filepath : Bytes
  pub dtime : ℕ

-- `newestWrittenTime` is `none` for the zero time; `files` is what has been sent to the channel.
pub record Parser : Type 0 where
  pub current_days_path : Bytes
  pub files : List FileInfoX
  pub newest_written_time : Option ℕ

-- What a flush finds: the entries of the directory (`none` is an error), which files exist when the
-- entries are first gone through and when they are gone through again, and the day of the month.
pub record Disk : Type 0 where
  pub dir_info : Option (List FileInfo)
  pub exist : Bytes → Bool
  pub exist_later : Bytes → Bool
  pub today : ℕ

-- `strings.HasSuffix`.
abbrev pub has_suffix : Bytes → Bytes → Bool
has_suffix s suffix = equal (drop (length s - length suffix) s) suffix

-- The time of the day of a moment, in microseconds, as the machine's time zone has it; how a path is
-- joined to the root; and `sort.Sort` by the times, which leaves equal times in any order.
pub record Machine : Type 0 where
  pub clock : ℕ → ℕ
  pub join_root : Bytes → Bytes
  pub sort : List FileInfoX → List FileInfoX

module _ (machine : Machine) where
  open machine use {clock, join_root, sort}

  -- The zero time stands at midnight.
  abbrev pub clock_of : Option ℕ → ℕ
  clock_of none = 0
  clock_of (some t) = clock t

  abbrev pub ok_file : Bytes → Bytes → Bytes
  ok_file path name = path ++ (codes "/" ++ (name ++ codes ".ok"))

  abbrev pub entry : Bytes → FileInfo → FileInfoX
  entry path info = record {
    name = info.name;
    dtime = info.mod_time;
    filepath = path ++ (codes "/" ++ info.name);
  }

  -- The first loop over the entries: whether all files are finished, and the files that are queued.
  unfoldable pub finished :
      Bytes → (Bytes → Bool) → Option ℕ → List FileInfo → Bool × List FileInfoX
  finished path exist newest [] = (true, [])
  finished path exist newest (info ∷ infos) =
      let (complete, files) = finished path exist newest infos in
      if not (has_suffix info.name (codes ".txt"))
      then (complete, files)
      else if not (exist (ok_file path info.name))
      then (false, files)
      else if not (ltb (clock_of newest) (clock info.mod_time))
      then (complete, files)
      else (complete, entry path info ∷ files)

  -- The second loop: the files that are not finished.
  unfoldable pub unfinished : Bytes → (Bytes → Bool) → List FileInfo → List FileInfoX
  unfinished path exist [] = []
  unfinished path exist (info ∷ infos) =
      let rest = unfinished path exist infos in
      if has_suffix info.name (codes ".txt") && not (exist (ok_file path info.name))
      then entry path info ∷ rest
      else rest

  unfoldable pub sort_file_list : List FileInfoX → List FileInfoX
  sort_file_list files = if is_empty files then files else sort files

  abbrev pub last_time : List FileInfoX → Option ℕ
  last_time [] = none
  last_time (x ∷ []) = some x.dtime
  last_time (x ∷ y ∷ files) = last_time (y ∷ files)

  -- The finished files go to the queue, and the last of them is the newest.
  unfoldable pub queue_finished : List FileInfoX → Parser → Parser
  unfolding sort_file_list
  queue_finished list p = if is_empty list then p else record p {
    files = p.files ++ sort_file_list list;
    newest_written_time = last_time (sort_file_list list);
  }

  -- The others go there as well, once their day is over.
  unfoldable pub queue_unfinished : List FileInfoX → Parser → Parser
  unfolding sort_file_list
  queue_unfinished list p =
      if is_empty list then p else record p { files = p.files ++ sort_file_list list }

  -- The day of the path is not today.
  unfoldable pub roll : Bytes → Disk → List FileInfo → Bool → Date → Parser → Parser
  unfolding queue_unfinished unfinished
  roll path disk infos complete date p =
      let p' =
        if complete then p else queue_unfinished (unfinished path disk.exist_later infos) p in
      record p' { newest_written_time = none; current_days_path = format_path (next_date date) }

  -- From `strings.Split(p.CurrentDaysPath, "/")` on.
  unfoldable pub roll_if_over : Bytes → Disk → List FileInfo → Bool → Parser → Result Crash Parser
  unfolding roll
  roll_if_over path disk infos complete p =
      elim (get_elem? (split (codes "/") p.current_days_path) 1) [
        | none ↦ err panic
        | some sub_path ↦ elim (parse_date sub_path) [
          | none ↦ ok p
          | some date ↦
              ok (if not (disk.today == date.day) then roll path disk infos complete date p else p)
        ]
      ]

  unfoldable pub flush_files : Disk → Parser → Result Crash Parser
  unfolding roll_if_over queue_finished finished
  flush_files disk p = elim disk.dir_info [
    | none ↦ ok p
    | some infos ↦
        let path = join_root p.current_days_path in
        let (complete, files) = finished path disk.exist p.newest_written_time infos in
        roll_if_over path disk infos complete (queue_finished files p)
  ]
