-- ===== src/Service/Expiry.antt =====
-- service/synth.go: the names of the sets of keys, and the timers of the sets that a process before
-- this one has left.
pub mod Names
pub mod Timers
pub mod Restart
pub mod Pool
use cdrrs.Base.{
  ℕ, ◌+◌, ◌-◌, Bool, not, List, [], ◌∷◌, ◌++◌, Option, none, some, ◌==◌, ltb, if◌then◌else◌, length,
  take, drop, codes, Bytes,
}

-- The machine's time zone: `Format("20060102150405.000")` of a moment, in nanoseconds, and
-- `time.ParseInLocation` with the same layout, where `none` is an error.
pub record Zone : Type 0 where
  pub format : ℕ → Bytes
  pub parse_in_location : Bytes → Option ℕ

-- `strings.Replace(s, ".", "", 1)`.
unfoldable pub drop_point : Bytes → Bytes
drop_point [] = []
drop_point (c ∷ s) = let rest = drop_point s in if c == b'.' then s else c ∷ rest

module _ (zone : Zone) where
  open zone use {format, parse_in_location}

  unfoldable pub sip_item_keys_set_id : ℕ → Bytes
  unfolding drop_point
  sip_item_keys_set_id now = drop_point (format now)

  unfoldable pub parse_time_from_set_id : Bytes → Option ℕ
  parse_time_from_set_id sid =
      if not (length sid == length (codes "20060102150405.000") - 1)
      then none
      else parse_in_location (take (length sid - 3) sid ++ (b'.' ∷ drop (length sid - 3) sid))

  -- How long the timer of a set runs that was named at `t`.
  abbrev pub remaining : ℕ → ℕ → ℕ → ℕ
  remaining cached_life now t =
      if ltb now (t + cached_life) then t + cached_life - now else 1000000000

  timer_of : ℕ → ℕ → Bytes → Option ℕ → List (Bytes × ℕ) → List (Bytes × ℕ)
  timer_of cached_life now sid none timers = timers
  timer_of cached_life now sid (some t) timers = (sid, remaining cached_life now t) ∷ timers

  -- The loop over the sets: `now` gives the time in each round.
  unfoldable pub start_timers : ℕ → (ℕ → ℕ) → ℕ → List Bytes → List (Bytes × ℕ)
  unfolding timer_of parse_time_from_set_id
  start_timers cached_life now i [] = []
  start_timers cached_life now i (sid ∷ sids) =
      timer_of cached_life (now i) sid (parse_time_from_set_id sid)
        (start_timers cached_life now (i + 1) sids)

  -- `get_sets` is `GetExpiredSipItemKeysSets` of the dao package; `none` is fuel of its loop that ran
  -- out.
  unfoldable pub unrelated_expired_keys_synth :
      {S : Type 0} → (S → Option (List Bytes × S)) → ℕ → (ℕ → ℕ) → S → Option (List (Bytes × ℕ) × S)
  unfolding start_timers
  unrelated_expired_keys_synth get_sets cached_life now s = elim (get_sets s) [
    | none ↦ none
    | some (sids, t) ↦ some (start_timers cached_life now 0 sids, t)
  ]
