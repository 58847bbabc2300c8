-- ===== src/Service/Files/Start.antt =====
-- service/parser.go: `Parser.Run`, which starts the goroutines that read the files of the channel.
use cdrrs.Service.Channel.{Pool, Steps}
use cdrrs.Service.Channel.Served.{IsServed, Steps-IsServed}
use cdrrs.Service.Channel.Drained.{IsHandled, Steps-IsHandled, Steps-nothing}
use cdrrs.Service.Files.{FileInfoX}
use cdrrs.Base.{
  List, [], ◌⊎◌, inl, inr, Bool-cases, ℕ, ◌<◌, ◌≡◌, refl, Bool, true, leb, if◌then◌else◌, ℤ, pos,
  negsuc, arith,
}

-- `n <= 0`.
abbrev pub is_not_positive : ℤ → Bool
is_not_positive (pos n) = leb n 0
is_not_positive (negsuc n) = true

-- `MaxParseProcs` behind the test for the default, on a machine with `num_cpu` processors.
unfoldable pub max_parse_procs : ℤ → ℕ → ℤ
max_parse_procs n num_cpu = if is_not_positive n then (if leb num_cpu 12 then pos 24 else n) else n

-- How often `for i := 0; i < n; i++` runs.
abbrev pub rounds : ℤ → ℕ
rounds (pos n) = n
rounds (negsuc n) = 0

-- The goroutines of `parseLoop`.
unfoldable pub run : ℤ → ℕ → ℕ
unfolding max_parse_procs
run n num_cpu = rounds (max_parse_procs n num_cpu)

-- No goroutine reads files exactly when none is configured and there are more than 12 processors.
pub run_none :
    (n : ℤ) (num_cpu : ℕ)
    → ((run n num_cpu ≡ 0) → (is_not_positive n ≡ true) × (12 < num_cpu))
      × ((is_not_positive n ≡ true) → 12 < num_cpu → run n num_cpu ≡ 0)
unfolding run max_parse_procs
run_none (pos n) num_cpu = (λ e. (ground arith, ground arith), λ e l. ground arith)
run_none (negsuc n) num_cpu = (λ e. (refl, ground arith), λ e l. ground arith)

-- `make(chan FileInfoX, 1024)`.
abbrev pub capacity : ℕ
capacity = 1024

-- The channel of files and the goroutines, which may be through with a file at any time.
abbrev pub Files : Type 0
Files = Pool FileInfoX

abbrev pub always : FileInfoX → ℕ
always x = 0

abbrev pub FileSteps : ℕ → Files → List FileInfoX → List FileInfoX → Files → Type 0
FileSteps n = Steps always capacity n

-- Whatever number of goroutines is configured, and however many processors there are, after any
-- steps from a state within the bounds in which no goroutine holds a file: `Run` has started
-- goroutines, and all files that are in the channel then, or with a goroutine, can be handled, in the
-- order of the channel and each once; or none is configured, there are more than 12 processors, and
-- no file was received from the channel or handled.
pub run-IsHandled :
    (n : ℤ) (num_cpu : ℕ) (p q : Files) (sent received : List FileInfoX)
    → IsServed always capacity (run n num_cpu) p
    → p.waiting ≡ []
    → FileSteps (run n num_cpu) p sent received q
    → (0 < run n num_cpu) × IsHandled always capacity (run n num_cpu) q
      ⊎ (is_not_positive n ≡ true) × (12 < num_cpu) × (received ≡ []) × (q.handled ≡ p.handled)
run-IsHandled n num_cpu p q sent received v w ss = elim (Bool-cases (leb (run n num_cpu) 0)) [
  | inl e ↦
      let z : run n num_cpu ≡ 0 = ground arith in
      let (a, b) = (run_none n num_cpu).0 z in
      let (c, d, f) = Steps-nothing always capacity (run n num_cpu) z w ss in inr (a, b, c, f)
  | inr e ↦
      let any : 0 < run n num_cpu = ground arith in
      let served = (Steps-IsServed always capacity (run n num_cpu) ss v).0 in
      inl (any, Steps-IsHandled always capacity (run n num_cpu) q any served)
]
