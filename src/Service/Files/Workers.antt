-- ===== src/Service/Files/Workers.antt =====
-- service/parser.go: the goroutines of `parseLoop`, which read the files of the queue line by line.
pub mod Lines
use cdrrs.Base.{
  ℕ, ◌+◌, ◌%◌, Bool, true, false, not, List, [], ◌∷◌, ltb, if◌then◌else◌, length, Result, ok, err,
  Bytes,
}
use cdrrs.Service.Files.{FileInfoX}

-- What a call of `ReadLine` returns: the end of the file, a line, or another error with no line.
pub data Read : Type 0 where
  eof failed : Read
  line : Bytes → Read

-- A file of the queue, whether it can be opened, and what reading it gives, call after call.
pub record Task : Type 0 where
  pub file : FileInfoX
  pub openable : Bool
  pub reads : List Read

-- The end of the process, and a loop that has read all of the task's reads and goes on.
pub data Stop : Type 0 where
  crashed unended : Stop

-- `output` is what `parseFunc` works on; the counters are of 32 bits.
pub record Workers (S : Type 0) : Type 0 where
  pub output : S
  pub num_workers : ℕ
  pub num_files : ℕ

abbrev pub add_one : ℕ → ℕ
add_one n = (n + 1) % 4294967296

abbrev pub sub_one : ℕ → ℕ
sub_one n = (n + 4294967295) % 4294967296

module _ {S : Type 0} (parse_func : Bytes → S → S) (root_path : Bytes) where
  -- The loop over the lines. After an error that is not the end it goes on with no line.
  unfoldable pub read_lines : List Read → S → Result Stop S
  read_lines [] output = err unended
  read_lines (eof ∷ reads) output = ok output
  read_lines (failed ∷ reads) output = read_lines reads (parse_func [] output)
  read_lines (line bs ∷ reads) output = read_lines reads (parse_func bs output)

  unfoldable pub closed : Workers S → Result Stop S → Result Stop (Workers S)
  closed w (err e) = err e
  closed w (ok output) = ok (record w {
    output = output;
    num_workers = sub_one w.num_workers;
    num_files = add_one w.num_files;
  })

  -- The log shows `x.filepath[len(p.conf.RootPath)+1:]`.
  unfoldable pub parse_file : Task → Workers S → Result Stop (Workers S)
  unfolding read_lines closed
  parse_file task w =
      let w' = record w { num_workers = add_one w.num_workers } in
      if not task.openable
      then ok w'
      else if ltb (length task.file.filepath) (length root_path + 1)
      then err crashed
      else closed w' (read_lines task.reads w.output)

  unfoldable pub parse_loop : List Task → Workers S → Result Stop (Workers S)
  unfolding parse_file
  parse_loop [] w = ok w
  parse_loop (task ∷ tasks) w = elim (parse_file task w) [
    | err e ↦ err e
    | ok w' ↦ parse_loop tasks w'
  ]
