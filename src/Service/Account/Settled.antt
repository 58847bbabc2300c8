-- ===== src/Service/Account/Settled.antt =====
-- What the loops of service/synth.go owe to each call: an account of its halves over a whole run.
use cdrrs.Base.{ℕ, ◌≡◌, List, ◌++◌, All, Bytes, ok, err, Result}
use cdrrs.Model.Item.{SipCache}
use cdrrs.Service.Dao.{Dao}
use cdrrs.Service.Dao.Store.{View, IsStore}
use cdrrs.Service.Synth.{Env, Crash}
use cdrrs.Service.Loop.{State, Event, run}
use cdrrs.Service.Loop.Safe.{Returns}
use cdrrs.Service.Account.{Pending, Fate, all_cdrs, Moves}
use cdrrs.Service.Account.Conserved.{Balanced, Moves-Balanced}
use cdrrs.Service.Account.Arrivals.{held_by, Good}
use cdrrs.Service.Account.Runs.{items_of, Reached, run-Reached}

module _ (dao : Dao) (w : View dao) (is : IsStore dao w) (env : Env)
    (max_cache_size push_period : ℕ) where
  abbrev pending : State dao → Pending
  pending s = held_by dao w is env max_cache_size push_period s.todo s.store

  -- The fates of all halves, by moves of the account, in which the record of a pair is that which
  -- `synthesize` makes of its two halves and that of a time-out the one of `NewExpiredCDR`: their
  -- records are those sent, and they add up for every Call-ID.
  pub record IsSettled (s : State dao) (items : List SipCache) (t : State dao) : Type 0 where
    pub fates : List Fate
    pub moves : Moves env (pending s) items fates (pending t)
    pub cdrs_are : t.cdrs ≡ s.cdrs ++ all_cdrs fates
    pub balanced : (k : Bytes) → Balanced env k (pending s) items fates (pending t)

  settle :
      (s : State dao) (items : List SipCache) (r : Result Crash (State dao))
      → Returns (Reached dao w is env max_cache_size push_period s items) r
      → Returns (IsSettled s items) r
  settle s items (ok t) (g, a) = record {
    fates = a.fates;
    moves = a.moves;
    cdrs_are = a.cdrs_are;
    balanced = λ k. Moves-Balanced env k a.moves;
  }
  settle s items (err e) h = h

  -- Over a cache that keeps its promises, from a state whose map has one item for each Call-ID, all
  -- of which the cache can encode, and is below its limit, whatever items that can be encoded, ticks
  -- and timers follow, each handled as a whole: the loops end without a crash; the records they sent
  -- are those of the fates of the halves, in their order, where the moves of the account that lead
  -- from the first state to the last give each pair the record of its two halves and each time-out
  -- that of the half that was cached; and for every Call-ID the halves that arrived, together with
  -- those that waited or were cached before, are those that wait or are cached now, two for each
  -- pair of it, one for each time-out and one for each repeated half.
  pub run-IsSettled :
      (s : State dao) (es : List Event)
      → Good dao w is env max_cache_size push_period s
      → All w.Fits (items_of es)
      → Returns (IsSettled s (items_of es)) (run dao env max_cache_size push_period s es)
  run-IsSettled s es g f =
      settle s (items_of es) (run dao env max_cache_size push_period s es)
        (run-Reached dao w is env max_cache_size push_period s es g f)
