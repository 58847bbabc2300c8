-- ===== src/Service/Channel.antt =====
-- A channel with room for some values, and goroutines that each receive one and begin with it when
-- it is due: those of `expiredSynth` in service/synth.go, and of `parseLoop` in service/parser.go.
pub mod Served
pub mod Drained
use cdrrs.Base.{ℕ, ◌≡◌, ◌<◌, ◌≤◌, List, [], ◌∷◌, ◌++◌, length}

-- The channel, what the goroutines hold, what they are through with, with the time when they were
-- free to handle it, and the time.
pub record Pool (A : Type 0) : Type 0 where
  pub queue : List A
  pub waiting : List A
  pub handled : List (A × ℕ)
  pub now : ℕ

-- A step of `n` goroutines, with what is sent by it and what is received.
pub data Step {A : Type 0} (due : A → ℕ) (room n : ℕ)
    : Pool A → List A → List A → Pool A → Type 0 where
  sends :
      {p : Pool A} (x : A)
      → length p.queue < room
      → Step due room n p (x ∷ []) [] (record p { queue = p.queue ++ x ∷ [] })
  receives :
      {p : Pool A} (x : A) (q : List A)
      → length p.waiting < n
      → p.queue ≡ x ∷ q
      → Step due room n p [] (x ∷ []) (record p { queue = q; waiting = x ∷ p.waiting })
  fires :
      {p : Pool A} (before : List A) (x : A) (behind : List A)
      → p.waiting ≡ before ++ x ∷ behind
      → due x ≤ p.now
      → Step due room n p [] []
          (record p { waiting = before ++ behind; handled = p.handled ++ (x, p.now) ∷ [] })
  passes :
      {p : Pool A} (later : ℕ) → p.now ≤ later → Step due room n p [] [] (record p { now = later })

pub data Steps {A : Type 0} (due : A → ℕ) (room n : ℕ)
    : Pool A → List A → List A → Pool A → Type 0 where
  here : {p : Pool A} → Steps due room n p [] [] p
  next :
      {p q r : Pool A} {sent more received further : List A}
      → Step due room n p sent received q
      → Steps due room n q more further r
      → Steps due room n p (sent ++ more) (received ++ further) r
