-- ===== src/Service/Expiry/Pool.antt =====
-- service/synth.go: the channel of timers, `exSynth`, that `realTimeSynth` and `Run` fill.
pub mod Startup
use cdrrs.Base.{
  ℕ, ◌≡◌, ◌<◌, ◌≤◌, List, [], ◌∷◌, ◌++◌, Option, none, some, ltb, if◌then◌else◌, length, Bytes,
}
use cdrrs.Service.Channel.{Pool, Steps}
use cdrrs.Service.Expiry.{Zone, unrelated_expired_keys_synth}

-- `exSynth`: the set, and the moment when its timer fires.
pub record ExSynth : Type 0 where
  pub sid : Bytes
  pub due : ℕ

-- `make(chan exSynth, 10000)`.
abbrev pub capacity : ℕ
capacity = 10000

-- `synth.exSynth <- es` where nothing receives; `none` is a send that never ends.
unfoldable pub send : {A : Type 0} → ℕ → A → List A → Option (List A)
send room es q = if ltb (length q) room then some (q ++ es ∷ []) else none

unfoldable pub send_all : {A : Type 0} → ℕ → List A → List A → Option (List A)
unfolding send
send_all room [] q = some q
send_all room (es ∷ more) q = elim (send room es q) [
  | none ↦ none
  | some q' ↦ send_all room more q'
]

-- `Run` up to the start of its goroutines: what the channel holds then, with the timers as they
-- were started.
unfoldable pub run :
    {S : Type 0}
    → Zone
    → (S → Option (List Bytes × S))
    → ℕ
    → (ℕ → ℕ)
    → S
    → Option (Option (List (Bytes × ℕ)) × S)
unfolding send_all
run zone get_sets cached_life now s =
    elim (unrelated_expired_keys_synth zone get_sets cached_life now s) [
      | none ↦ none
      | some (timers, t) ↦ some (send_all capacity timers [], t)
    ]

-- The channel with the goroutines of `expiredSynth`, each of which waits for one timer.
abbrev pub Timers : Type 0
Timers = Pool ExSynth

abbrev pub TimerSteps : ℕ → Timers → List ExSynth → List ExSynth → Timers → Type 0
TimerSteps n = Steps (λ (es : ExSynth). es.due) capacity n
