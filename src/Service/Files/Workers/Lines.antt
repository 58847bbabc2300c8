-- ===== src/Service/Files/Workers/Lines.antt =====
-- Every line of every file that can be opened reaches `parseFunc`, and the counters tell how many
-- files there were.
use cdrrs.Base.{
  ℕ, ◌+◌, ◌%◌, ◌<◌, ◌≡◌, refl, ◌∙◌, Bool, true, false, List, [], ◌∷◌, ◌++◌, if◌then◌else◌, length,
  ok, All, Bytes, arith, ltb, inl, inr, Bool-cases,
}
use cdrrs.Service.Files.Workers.{
  Read, eof, failed, line, Task, Workers, add_one, sub_one, read_lines, closed, parse_file,
  parse_loop,
}

-- The lines in front of the end of the file; an error leaves an empty one.
unfoldable pub lines_of : List Read → List Bytes
lines_of [] = []
lines_of (eof ∷ reads) = []
lines_of (failed ∷ reads) = [] ∷ lines_of reads
lines_of (line bs ∷ reads) = bs ∷ lines_of reads

unfoldable pub is_ended : List Read → Bool
is_ended [] = false
is_ended (eof ∷ reads) = true
is_ended (failed ∷ reads) = is_ended reads
is_ended (line bs ∷ reads) = is_ended reads

unfoldable pub all_lines : List Task → List Bytes
unfolding lines_of
all_lines [] = []
all_lines (task ∷ tasks) = (if task.openable then lines_of task.reads else []) ++ all_lines tasks

-- How many of the files can be opened, or cannot.
unfoldable pub how_many : Bool → List Task → ℕ
how_many b [] = 0
how_many b (task ∷ tasks) =
    let rest = how_many b tasks in
    elim b [
      | true ↦ if task.openable then 1 + rest else rest
      | false ↦ if task.openable then rest else 1 + rest
    ]

module _ {S : Type 0} (parse_func : Bytes → S → S) (root_path : Bytes) where
  unfoldable pub parse_all : List Bytes → S → S
  parse_all [] output = output
  parse_all (bs ∷ lines) output = parse_all lines (parse_func bs output)

  -- A file under the root, which is read to its end.
  pub record IsReadable (task : Task) : Type 0 where
    pub under_root : length root_path < length task.file.filepath
    pub ended : is_ended task.reads ≡ true

  read_lines-all :
      (reads : List Read) (output : S)
      → is_ended reads ≡ true
      → read_lines parse_func root_path reads output ≡ ok (parse_all (lines_of reads) output)
  unfolding read_lines parse_all lines_of is_ended
  read_lines-all [] output e = cc
  read_lines-all (eof ∷ reads) output e = refl
  read_lines-all (failed ∷ reads) output e = read_lines-all reads (parse_func [] output) e
  read_lines-all (line bs ∷ reads) output e = read_lines-all reads (parse_func bs output) e

  parse_all-append :
      (xs ys : List Bytes) (output : S)
      → parse_all (xs ++ ys) output ≡ parse_all ys (parse_all xs output)
  unfolding parse_all
  parse_all-append [] ys output = refl
  parse_all-append (bs ∷ xs) ys output = parse_all-append xs ys (parse_func bs output)

  not_short : (m n : ℕ) → m < n → ltb n (m + 1) ≡ false
  not_short m n h = ground arith

  add_sub : (n : ℕ) → n < 4294967296 → sub_one (add_one n) ≡ n
  add_sub n h = omega arith

  parse_file-readable :
      (task : Task) (w : Workers S)
      → task.openable ≡ true
      → IsReadable task
      → w.num_workers < 4294967296
      → parse_file parse_func root_path task w
        ≡ ok (record w {
          output = parse_all (lines_of task.reads) w.output;
          num_files = add_one w.num_files;
        })
  unfolding parse_file closed
  parse_file-readable task w o v h =
      rw
        (
          o,
          not_short _ _ v.under_root,
          read_lines-all task.reads w.output v.ended,
          add_sub w.num_workers h,
        )
        refl

  parse_file-unopenable :
      (task : Task) (w : Workers S)
      → task.openable ≡ false
      → parse_file parse_func root_path task w
        ≡ ok (record w { num_workers = add_one w.num_workers })
  unfolding parse_file
  parse_file-unopenable task w o = rw o refl

  add_more : (a b : ℕ) → (add_one a + b) % 4294967296 ≡ (a + (1 + b)) % 4294967296
  add_more a b = omega arith

  -- If every file that can be opened is one under the root and is read to its end: the loop handles
  -- them all, `parseFunc` is given all their lines in the order of the queue, the files that were
  -- opened are counted, and the workers that it counts as busy are those there were and one more for
  -- each file that could not be opened, all modulo 2 ^ 32.
  pub parse_loop-all_lines :
      (tasks : List Task) (w : Workers S)
      → All (λ (task : Task). task.openable ≡ true → IsReadable task) tasks
      → w.num_workers < 4294967296
      → w.num_files < 4294967296
      → parse_loop parse_func root_path tasks w
        ≡ ok (record {
          output = parse_all (all_lines tasks) w.output;
          num_workers = (w.num_workers + how_many false tasks) % 4294967296;
          num_files = (w.num_files + how_many true tasks) % 4294967296;
        })
  unfolding parse_loop all_lines how_many parse_all
  parse_loop-all_lines [] w v h k =
      let keeps : (n : ℕ) → n < 4294967296 → (n + 0) % 4294967296 ≡ n = λ n l. omega arith in
      rw (keeps w.num_workers h, keeps w.num_files k) refl
  parse_loop-all_lines (task ∷ tasks) w (v, vs) h k = elim (Bool-cases task.openable) [
    | inl o ↦
        let w' : Workers S = record w {
          output = parse_all (lines_of task.reads) w.output;
          num_files = add_one w.num_files;
        } in
        rw (parse_loop, parse_file-readable task w o (v o) h, o)
          (parse_loop-all_lines tasks w' vs h (omega arith)
            ∙ rw
                (
                  add_more w.num_files (how_many true tasks),
                  parse_all-append (lines_of task.reads) (all_lines tasks) w.output,
                )
                refl)
    | inr n ↦
        let w' : Workers S = record w { num_workers = add_one w.num_workers } in
        rw (parse_loop, parse_file-unopenable task w n, n)
          (parse_loop-all_lines tasks w' vs (omega arith) k
            ∙ rw (add_more w.num_workers (how_many false tasks)) refl)
  ]
