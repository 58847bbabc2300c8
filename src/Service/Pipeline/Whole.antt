-- ===== src/Service/Pipeline/Whole.antt =====
-- From the files to the records: what the goroutines read, and what the synthesizer makes of it.
use cdrrs.Base.{
  ℕ, if◌then◌else◌, ◌+◌, ◌≡◌, refl, sym, ap, ◌∙◌, true, List, [], ◌∷◌, ◌++◌, append_assoc,
  append-nil, Result, ok, err, All, map, arith, Bytes,
}
use cdrrs.Sip.Message.{SipMsg}
use cdrrs.Model.Item.{SipCache}
use cdrrs.Model.Position.{Positions}
use cdrrs.Service.Line.{do_line}
use cdrrs.Service.Dao.{Dao}
use cdrrs.Service.Dao.Store.{View, IsStore}
use cdrrs.Service.Synth.{Env, Crash}
use cdrrs.Service.Loop.{State, Event, run}
use cdrrs.Service.Loop.Safe.{Returns}
use cdrrs.Service.Files.Workers.{Task}
use cdrrs.Service.Files.Workers.Lines.{
  parse_all, lines_of, all_lines, IsReadable, parse_loop-all_lines,
}
use cdrrs.Service.Account.{Pending, Fate, all_cdrs, Moves}
use cdrrs.Service.Account.Conserved.{all_used, held, arrived, arrived-append}
use cdrrs.Service.Account.Arrivals.{held_by, Good}
use cdrrs.Service.Account.Runs.{items_of}
use cdrrs.Service.Account.Settled.{IsSettled, run-IsSettled}
use cdrrs.Service.Pipeline.{sent, input_line, inputs, Merge}
use cdrrs.Service.Pipeline.Merged.{total, total-Merge, All-Merge}

-- The items of some lines, in their order.
unfoldable pub items_of_lines : Positions → SipMsg → SipCache → List Bytes → List SipCache
items_of_lines ps message pooled [] = []
items_of_lines ps message pooled (line ∷ lines) =
    sent (do_line ps message pooled line) ++ items_of_lines ps message pooled lines

module _ (ps : Positions) (message : SipMsg) (pooled : SipCache) (root_path : Bytes) where
  abbrev pub items_of_tasks : List Task → List SipCache
  items_of_tasks tasks = items_of_lines ps message pooled (all_lines tasks)

  abbrev pub AllReadable : List Task → Type 0
  AllReadable = All (λ (task : Task).
      task.openable ≡ true → IsReadable (input_line ps message pooled) root_path task)

  parse_all-input_line :
      (lines : List Bytes) (items : List SipCache)
      → parse_all (input_line ps message pooled) root_path lines items
        ≡ items ++ items_of_lines ps message pooled lines
  unfolding parse_all input_line items_of_lines
  parse_all-input_line [] items = sym (append-nil items)
  parse_all-input_line (line ∷ lines) items =
      parse_all-input_line lines (items ++ sent (do_line ps message pooled line))
      ∙ append_assoc items (sent (do_line ps message pooled line))
          (items_of_lines ps message pooled lines)

  pub inputs-items_of_tasks :
      (tss : List (List Task))
      → All AllReadable tss
      → inputs ps message pooled root_path tss ≡ ok (map items_of_tasks tss)
  unfolding inputs
  inputs-items_of_tasks [] h = refl
  inputs-items_of_tasks (tasks ∷ more) (h, hs) =
      rw
        (
          inputs,
          parse_loop-all_lines (input_line ps message pooled) root_path tasks
              (record { output = []; num_workers = 0; num_files = 0 }) h (omega arith)
              (omega arith),
          inputs-items_of_tasks more hs,
        )
        (ap (λ l. ok (l ∷ map items_of_tasks more)) (parse_all-input_line (all_lines tasks) []))

  -- How many halves of a call the files hold.
  abbrev pub halves : Bytes → List Task → ℕ
  halves k queue = arrived k (items_of_tasks queue)

  -- How many the goroutines find in their shares.
  unfoldable shares : Bytes → List (List Task) → ℕ
  shares k [] = 0
  shares k (tasks ∷ more) = halves k tasks + shares k more

  total-shares :
      (k : Bytes) (tss : List (List Task))
      → total (arrived k) (map items_of_tasks tss) ≡ shares k tss
  unfolding total shares
  total-shares k [] = refl
  total-shares k (tasks ∷ more) =
      ap (λ n. arrived k (items_of_tasks tasks) + n) (total-shares k more)

  arrived_one :
      (k : Bytes) (x : SipCache) (xs : List SipCache)
      → arrived k (x ∷ xs) ≡ arrived k (x ∷ []) + arrived k xs
  arrived_one k x xs = arrived-append k (x ∷ []) xs

  arrived_none : (k : Bytes) → arrived k [] ≡ 0
  unfolding arrived
  arrived_none k = refl

  arrived-Merge :
      (k : Bytes) (tss : List (List Task)) (l : List SipCache)
      → Merge (map items_of_tasks tss) l
      → arrived k l ≡ shares k tss
  arrived-Merge k tss l m =
      total-Merge (arrived k) (λ x. arrived k (x ∷ [])) (arrived_none k) (arrived_one k) m
      ∙ total-shares k tss

  items_of_lines-append :
      (xs ys : List Bytes)
      → items_of_lines ps message pooled (xs ++ ys)
        ≡ items_of_lines ps message pooled xs ++ items_of_lines ps message pooled ys
  unfolding items_of_lines
  items_of_lines-append [] ys = refl
  items_of_lines-append (line ∷ xs) ys =
      ap (λ l. sent (do_line ps message pooled line) ++ l) (items_of_lines-append xs ys)
      ∙ sym (
          append_assoc (sent (do_line ps message pooled line)) (items_of_lines ps message pooled xs)
            (items_of_lines ps message pooled ys))

  -- The halves of a call in one file.
  abbrev in_file : Bytes → Task → ℕ
  in_file k task = arrived k (items_of_tasks (task ∷ []))

  in_files :
      (k : Bytes) (task : Task) (tasks : List Task)
      → arrived k (items_of_tasks (task ∷ tasks))
        ≡ in_file k task + arrived k (items_of_tasks tasks)
  unfolding all_lines
  in_files k task tasks =
      let own : List Bytes = if task.openable then lines_of task.reads else [] in
      ap (arrived k) (items_of_lines-append own (all_lines tasks))
      ∙ arrived-append k (items_of_lines ps message pooled own) (items_of_tasks tasks)
      ∙ ap (λ l. arrived k (items_of_lines ps message pooled l) + arrived k (items_of_tasks tasks))
          (sym (append-nil own))

  no_files : (k : Bytes) → arrived k (items_of_tasks []) ≡ 0
  unfolding arrived items_of_lines all_lines
  no_files k = refl

  -- The files of a queue, however the goroutines share them out.
  shares-Merge :
      (k : Bytes) (tss : List (List Task)) (queue : List Task)
      → Merge tss queue
      → shares k tss ≡ halves k queue
  unfolding total shares
  shares-Merge k tss queue m =
      sum tss ∙ sym (total-Merge (halves k) (in_file k) (no_files k) (in_files k) m)
    where
      sum : (xss : List (List Task)) → shares k xss ≡ total (halves k) xss
      sum [] = refl
      sum (tasks ∷ more) = ap (λ n. halves k tasks + n) (sum more)

  arrived-queue :
      (k : Bytes) (tss : List (List Task)) (queue : List Task) (l : List SipCache)
      → Merge tss queue
      → Merge (map items_of_tasks tss) l
      → arrived k l ≡ halves k queue
  arrived-queue k tss queue l q m = arrived-Merge k tss l m ∙ shares-Merge k tss queue q

module _ (dao : Dao) (w : View dao) (is : IsStore dao w) (env : Env)
    (max_cache_size push_period : ℕ) (message : SipMsg) (pooled : SipCache)
    (root_path : Bytes) where
  abbrev pending : State dao → Pending
  pending s = held_by dao w is env max_cache_size push_period s.todo s.store

  -- The account of all calls over the files of a queue, when these items were received.
  pub record IsAccounted (s : State dao) (queue : List Task) (l : List SipCache) (t : State dao)
      : Type 0 where
    pub fates : List Fate
    pub moves : Moves env (pending s) l fates (pending t)
    pub cdrs_are : t.cdrs ≡ s.cdrs ++ all_cdrs fates
    pub balanced :
        (k : Bytes)
        → all_used k fates + held k (pending t)
          ≡ halves env.positions message pooled root_path k queue + held k (pending s)

  account :
      (s : State dao) (tss : List (List Task)) (queue : List Task) (l : List SipCache)
      (r : Result Crash (State dao))
      → Merge tss queue
      → Merge (map (items_of_tasks env.positions message pooled root_path) tss) l
      → Returns (IsSettled dao w is env max_cache_size push_period s l) r
      → Returns (IsAccounted s queue l) r
  account s tss queue l (ok t) q m h = record {
    fates = h.fates;
    moves = h.moves;
    cdrs_are = h.cdrs_are;
    balanced = λ k.
        h.balanced k
        ∙ ap (λ n. n + held k (pending s))
            (arrived-queue env.positions message pooled root_path k tss queue l q m);
  }
  account s tss queue l (err e) q m h = h

  -- The items that the goroutines send for the files of a queue that they share out, merged in any
  -- way.
  pub inputs-IsAccounted :
      (tss : List (List Task)) (queue : List Task) (s : State dao) (es : List Event)
      → Merge tss queue
      → Good dao w is env max_cache_size push_period s
      → All (All w.Fits) (map (items_of_tasks env.positions message pooled root_path) tss)
      → Merge (map (items_of_tasks env.positions message pooled root_path) tss) (items_of es)
      → Returns (IsAccounted s queue (items_of es)) (run dao env max_cache_size push_period s es)
  inputs-IsAccounted tss queue s es q g f m =
      account s tss queue (items_of es) (run dao env max_cache_size push_period s es) q m
        (run-IsSettled dao w is env max_cache_size push_period s es g (All-Merge w.Fits f m))
