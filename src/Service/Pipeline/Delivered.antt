-- ===== src/Service/Pipeline/Delivered.antt =====
-- From the files to the database: the records of the account, through `handleCDR`.
use cdrrs.Base.{
  Option, ℕ, ◌+◌, ◌≡◌, refl, ap, ◌∙◌, Bool, List, [], ◌∷◌, ◌++◌, Result, ok, err, All, map, Bytes,
}
use cdrrs.Sip.Message.{SipMsg}
use cdrrs.Model.Item.{SipCache}
use cdrrs.Model.Cdr.{VoipCdr, TimeOfDay, set_cdr_id, set_create_time, set_cdr_table}
use cdrrs.Service.Dao.{Dao}
use cdrrs.Service.Dao.Store.{View, IsStore}
use cdrrs.Service.Synth.{Env, Crash}
use cdrrs.Service.Loop.{State, Event, run}
use cdrrs.Service.Loop.Safe.{Returns}
use cdrrs.Service.Files.Workers.{Task}
use cdrrs.Service.Records.{Records, Arrival, collected, ticked, stamp, handle_cdr}
use cdrrs.Service.Records.Batches.{everything, stamped, inserted-handle_cdr}
use cdrrs.Service.Account.{Pending, Fate, all_cdrs, Moves}
use cdrrs.Service.Account.Conserved.{all_used, held}
use cdrrs.Service.Account.Arrivals.{held_by, Good}
use cdrrs.Service.Account.Runs.{items_of}
use cdrrs.Service.Pipeline.{inputs, Merge}
use cdrrs.Service.Pipeline.Whole.{
  items_of_tasks, AllReadable, halves, inputs-items_of_tasks, IsAccounted, inputs-IsAccounted,
}

-- A record without what the three setters write.
abbrev pub unstamped : VoipCdr → VoipCdr
unstamped c = record c { id = 0; create_time = []; table_name = [] }

-- The records that are collected, among ticks.
unfoldable pub collected_of : List Arrival → List VoipCdr
collected_of [] = []
collected_of (collected cdr t formatted truncated now ∷ arrivals) = cdr ∷ collected_of arrivals
collected_of (ticked now ∷ arrivals) = collected_of arrivals

unstamped-stamp :
    (t : TimeOfDay) (formatted truncated : Bytes) (counter : ℕ) (cdr : VoipCdr)
    → unstamped (stamp t formatted truncated counter cdr).1 ≡ unstamped cdr
unfolding stamp set_cdr_id set_create_time set_cdr_table
unstamped-stamp t formatted truncated counter cdr = refl

unstamped-stamped :
    (counter : ℕ) (arrivals : List Arrival)
    → map unstamped (stamped counter arrivals) ≡ map unstamped (collected_of arrivals)
unfolding stamped collected_of
unstamped-stamped counter [] = refl
unstamped-stamped counter (collected cdr t formatted truncated now ∷ arrivals) =
    ap (λ c. c ∷ map unstamped (stamped (stamp t formatted truncated counter cdr).0 arrivals))
      (unstamped-stamp t formatted truncated counter cdr)
    ∙ ap (λ l. unstamped cdr ∷ l)
        (unstamped-stamped (stamp t formatted truncated counter cdr).0 arrivals)
unstamped-stamped counter (ticked now ∷ arrivals) = unstamped-stamped counter arrivals

map-append : {A B : Type 0} (f : A → B) (xs ys : List A) → map f (xs ++ ys) ≡ map f xs ++ map f ys
map-append f [] ys = refl
map-append f (x ∷ xs) ys = ap (λ l. f x ∷ l) (map-append f xs ys)

module _ (dao : Dao) (w : View dao) (is : IsStore dao w) (env : Env)
    (max_cache_size push_period : ℕ) (message : SipMsg) (pooled : SipCache) (root_path : Bytes)
    (enable : Bool) (marshal : VoipCdr → Option Bytes) (max_flush_cap duration : ℕ) where
  abbrev pending : State dao → Pending
  pending s = held_by dao w is env max_cache_size push_period s.todo s.store

  -- What `handleCDR` makes of the records that the synthesizer sent, and the account of them.
  pub record IsDelivered (queue : List Task) (l : List SipCache) (srv : Records)
      (timing : List VoipCdr → List Arrival) (s t : State dao) : Type 0 where
    pub fates : List Fate
    pub moves : Moves env (pending s) l fates (pending t)
    pub balanced :
        (k : Bytes)
        → all_used k fates + held k (pending t)
          ≡ halves env.positions message pooled root_path k queue + held k (pending s)
    pub delivered :
        map unstamped
          (everything (handle_cdr enable marshal max_flush_cap duration srv (timing t.cdrs)))
        ≡ map unstamped (everything srv) ++ map unstamped (s.cdrs ++ all_cdrs fates)

  deliver :
      (queue : List Task) (l : List SipCache) (srv : Records) (timing : List VoipCdr → List Arrival)
      (s : State dao) (r : Result Crash (State dao))
      → ((cdrs : List VoipCdr) → collected_of (timing cdrs) ≡ cdrs)
      → Returns
          (IsAccounted dao w is env max_cache_size push_period message pooled root_path s queue l)
          r
      → Returns (IsDelivered queue l srv timing s) r
  deliver queue l srv timing s (ok t) e h = record {
    fates = h.fates;
    moves = h.moves;
    balanced = h.balanced;
    delivered =
        ap (map unstamped)
          (inserted-handle_cdr enable marshal max_flush_cap duration srv (timing t.cdrs))
        ∙ map-append unstamped (everything srv) (stamped srv.counter (timing t.cdrs))
        ∙ ap (λ l. map unstamped (everything srv) ++ l)
            (unstamped-stamped srv.counter (timing t.cdrs)
              ∙ ap (map unstamped) (e t.cdrs ∙ h.cdrs_are));
  }
  deliver queue l srv timing s (err c) e h = h

  -- The goroutines share the files of a queue out in any way, and those that can be opened are under
  -- the root and are read to their ends; the synthesizer starts from a state whose map has one item
  -- for each Call-ID, all of which the cache can encode, and is below its limit; the cache keeps its
  -- promises and can encode the items of the lines; the loops receive one of the merges of these
  -- items, among any ticks and timers, each handled as a whole; and `handleCDR` collects the records
  -- that they send in their order, among any ticks. Then the goroutines come to the end of their
  -- files and send the items of the lines, and the loops end without a crash. What became of the
  -- halves is given by moves of the account, which take up the items in the order in which they were
  -- received, give each pair the record that its two halves make, and each time-out that of the half
  -- that was cached. For every Call-ID its halves in all the files, with those that were held
  -- before, are the halves that are held at the end, two for each pair, one for each time-out and
  -- one for each repeated half. And what `handleCDR` has inserted, with what waits for its batch, is
  -- what it had and then the records that were sent before and those of these moves, once each and
  -- in their order, but for the id, the time and the table that it gives them.
  pub inputs-IsDelivered :
      (queue : List Task) (tss : List (List Task)) (srv : Records)
      (timing : List VoipCdr → List Arrival) (s : State dao) (es : List Event)
      → Merge tss queue
      → All (AllReadable env.positions message pooled root_path) tss
      → Good dao w is env max_cache_size push_period s
      → All (All w.Fits) (map (items_of_tasks env.positions message pooled root_path) tss)
      → Merge (map (items_of_tasks env.positions message pooled root_path) tss) (items_of es)
      → ((cdrs : List VoipCdr) → collected_of (timing cdrs) ≡ cdrs)
      → (inputs env.positions message pooled root_path tss
          ≡ ok (map (items_of_tasks env.positions message pooled root_path) tss))
        × Returns
            (IsDelivered queue (items_of es) srv timing s)
            (run dao env max_cache_size push_period s es)
  inputs-IsDelivered queue tss srv timing s es q h g f m e = (
    inputs-items_of_tasks env.positions message pooled root_path tss h,
    deliver queue (items_of es) srv timing s (run dao env max_cache_size push_period s es) e (
        inputs-IsAccounted dao w is env max_cache_size push_period message pooled root_path tss
          queue s es q g f m),
  )
