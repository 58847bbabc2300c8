-- ===== src/Service/Expiry/Timers.antt =====
-- After a restart every set of keys gets a timer again, for what is left of its time.
use cdrrs.Base.{
  ℕ, ◌+◌, ◌*◌, ◌/◌, ◌≡◌, refl, List, [], ◌∷◌, ltb, if◌then◌else◌, map, All, Bytes, arith,
}
use cdrrs.Service.Expiry.{Zone, sip_item_keys_set_id, start_timers, timer_of, remaining}
use cdrrs.Service.Expiry.Names.{IsZone, parse_time_from_set_id-sip_item_keys_set_id}

-- When the timer of a set fires that was named at `t` and found at `now`.
abbrev pub due : ℕ → ℕ → ℕ → ℕ
due cached_life now t =
    let ends = t / 1000000 * 1000000 + cached_life in
    if ltb now ends then ends else now + 1000000000

module _ (zone : Zone) (is : IsZone zone) (cached_life : ℕ) (now : ℕ → ℕ) where
  -- A timer for each name, in their order, each due when it should be.
  abbrev pub AreDue : ℕ → List ℕ → List (Bytes × ℕ) → Type 0
  AreDue i [] [] = Unit
  AreDue i [] (timer ∷ timers) = ⊥
  AreDue i (t ∷ ts) [] = ⊥
  AreDue i (t ∷ ts) ((sid, d) ∷ timers) =
      (sid ≡ sip_item_keys_set_id zone t)
      × ((now i + d ≡ due cached_life (now i) t) × AreDue (i + 1) ts timers)

  due-remaining :
      (n u : ℕ)
      → n + remaining zone cached_life n u
        ≡ (if ltb n (u + cached_life) then u + cached_life else n + 1000000000)
  due-remaining n u = ground arith

  -- For the sets that were named at any moments that can be read back, in whatever order they are
  -- found and however the time goes on meanwhile: each gets one timer, which fires when the life of
  -- the set, counted from the millisecond of its name, ends, or after a second if it has ended.
  pub start_timers-AreDue :
      (i : ℕ) (ts : List ℕ)
      → All is.Readable ts
      → AreDue i ts (start_timers zone cached_life now i (map (sip_item_keys_set_id zone) ts))
  unfolding start_timers timer_of
  start_timers-AreDue i [] h = tt
  start_timers-AreDue i (t ∷ ts) (h, hs) =
      rw (start_timers, parse_time_from_set_id-sip_item_keys_set_id zone is t h)
        (refl, (due-remaining (now i) (t / 1000000 * 1000000), start_timers-AreDue (i + 1) ts hs))
