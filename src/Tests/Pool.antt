-- ===== src/Tests/Pool.antt =====
-- The channels of timers and of files at concrete inputs.
use cdrrs.Service.Channel.{sends, receives, fires, passes, here, next}
use cdrrs.Service.Channel.Served.{IsServed, IsFollowed, Steps-IsServed}
use cdrrs.Service.Channel.Drained.{IsHandled}
use cdrrs.Service.Expiry.Pool.{ExSynth, Timers, TimerSteps, capacity}
use cdrrs.Service.Files.{FileInfoX}
use cdrrs.Service.Files.Start
use cdrrs.Service.Files.Start.{Files, always, is_not_positive, max_parse_procs, run-IsHandled}
use cdrrs.Base.{ℕ, ◌<◌, ◌≡◌, ◌⊎◌, true, pos, refl, [], ◌∷◌, codes, Bytes, arith}

abbrev due_at : ExSynth → ℕ
due_at es = es.due

abbrev timer : Bytes → ℕ → ExSynth
timer sid due = record { sid = sid; due = due }

-- One set waits with the only goroutine, and another one behind it.
abbrev full : Timers
full = record {
  queue = timer (codes "s2") 20 ∷ [];
  waiting = timer (codes "s1") 90 ∷ [];
  handled = [];
  now = 50;
}

abbrev later : Timers
later = record {
  queue = [];
  waiting = timer (codes "s2") 20 ∷ [];
  handled = (timer (codes "s1") 90, 95) ∷ [];
  now = 95;
}

full-Steps : TimerSteps 1 full [] (timer (codes "s2") 20 ∷ []) later
full-Steps = next (passes 95 (omega arith)) (
    next (fires [] (timer (codes "s1") 90) [] refl (omega arith))
      (next (receives (timer (codes "s2") 20) [] (omega arith) refl) here))

Steps-IsServed_example :
    IsServed due_at capacity 1 later
    × IsFollowed due_at capacity 1 full [] (timer (codes "s2") 20 ∷ []) later
Steps-IsServed_example =
    Steps-IsServed due_at capacity 1 full-Steps
      (record { bounded = omega arith; busy = omega arith; on_time = tt })

abbrev file : FileInfoX
file = record { name = codes "a.txt"; filepath = codes "r/a.txt"; dtime = 7 }

abbrev idle : Files
idle = record { queue = []; waiting = []; handled = []; now = 0 }

-- A file is sent and received.
run-IsHandled_example :
    (0 < Start.run (pos 2) 16)
      × IsHandled always Start.capacity (Start.run (pos 2) 16) (record idle { waiting = file ∷ [] })
    ⊎ (is_not_positive (pos 2) ≡ true) × (12 < 16) × (file ∷ [] ≡ []) × (idle.handled ≡ [])
unfolding Start.run max_parse_procs
run-IsHandled_example =
    run-IsHandled (pos 2) 16 idle (record idle { waiting = file ∷ [] }) (file ∷ []) (file ∷ [])
      (record { bounded = omega arith; busy = omega arith; on_time = tt }) refl
      (next (sends file (omega arith)) (next (receives file [] (omega arith) refl) here))
