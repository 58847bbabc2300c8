-- ===== src/Service/Channel/Served.antt =====
-- What becomes of the values that are sent.
use cdrrs.Base.{
  ℕ, ◌+◌, ◌≤◌, ◌≡◌, refl, sym, ap, ◌∙◌, Bool, List, [], ◌∷◌, ◌++◌, append_assoc, append-nil, length,
  length-append, if◌then◌else◌, All, arith,
}
use cdrrs.Service.Channel.{Pool, Step, Steps, sends, receives, fires, passes, here, next}

module _ {A : Type 0} where
  -- How many of the values a test holds of.
  unfoldable pub how_many : (A → Bool) → List A → ℕ
  how_many f [] = 0
  how_many f (x ∷ l) = let rest = how_many f l in if f x then 1 + rest else rest

  unfoldable pub how_many_done : (A → Bool) → List (A × ℕ) → ℕ
  how_many_done f [] = 0
  how_many_done f ((x, t) ∷ l) = let rest = how_many_done f l in if f x then 1 + rest else rest

  how_many-append :
      (f : A → Bool) (xs ys : List A) → how_many f (xs ++ ys) ≡ how_many f xs + how_many f ys
  unfolding how_many
  how_many-append f [] ys = omega arith
  how_many-append f (x ∷ xs) ys = ground (arith, how_many-append f xs ys)

  how_many_done-append :
      (f : A → Bool) (xs ys : List (A × ℕ))
      → how_many_done f (xs ++ ys) ≡ how_many_done f xs + how_many_done f ys
  unfolding how_many_done
  how_many_done-append f [] ys = omega arith
  how_many_done-append f ((x, t) ∷ xs) ys = ground (arith, how_many_done-append f xs ys)

  -- The values of a pool, wherever they are.
  abbrev pub all_of : (A → Bool) → Pool A → ℕ
  all_of f p = how_many f p.queue + how_many f p.waiting + how_many_done f p.handled

module _ {A : Type 0} (due : A → ℕ) (room n : ℕ) where
  -- What the bounds of the channel and of the goroutines ask for, and that nothing was handled
  -- before its time.
  pub record IsServed (p : Pool A) : Type 0 where
    pub bounded : length p.queue ≤ room
    pub busy : length p.waiting ≤ n
    pub on_time : All (λ (h : A × ℕ). due h.0 ≤ h.1) p.handled

  -- From `p` to `q`: the channel is first in, first out, and no value is lost or handled twice.
  pub record IsFollowed (p : Pool A) (sent received : List A) (q : Pool A) : Type 0 where
    pub fifo : p.queue ++ sent ≡ received ++ q.queue
    pub same : (f : A → Bool) → all_of f p + how_many f sent ≡ all_of f q

  All-append :
      {A : Type 0} (P : A → Type 0) (xs ys : List A) → All P xs → All P ys → All P (xs ++ ys)
  All-append P [] ys h k = k
  All-append P (x ∷ xs) ys (h, hs) k = (h, All-append P xs ys hs k)

  Step-IsServed :
      {p q : Pool A} {sent received : List A}
      → Step due room n p sent received q
      → IsServed p
      → IsServed q
  Step-IsServed {p} (sends x l) v = record {
    bounded = omega (arith, length-append p.queue (x ∷ []));
    busy = v.busy;
    on_time = v.on_time;
  }
  Step-IsServed {p} (receives x q l e) v = record {
    bounded = omega (arith, v.bounded, ap length e);
    busy = omega arith;
    on_time = v.on_time;
  }
  Step-IsServed {p} (fires before x behind e d) v = record {
    bounded = v.bounded;
    busy = omega (
      arith,
      v.busy,
      ap length e,
      length-append before (x ∷ behind),
      length-append before behind,
    );
    on_time = All-append _ p.handled ((x, p.now) ∷ []) v.on_time (d, tt);
  }
  Step-IsServed (passes later h) v = record {
    bounded = v.bounded;
    busy = v.busy;
    on_time = v.on_time;
  }

  Step-IsFollowed :
      {p q : Pool A} {sent received : List A}
      → Step due room n p sent received q
      → IsFollowed p sent received q
  unfolding how_many how_many_done
  Step-IsFollowed {p} (sends x l) = record {
    fifo = refl;
    same = λ f. omega (arith, how_many-append f p.queue (x ∷ []));
  }
  Step-IsFollowed {p} (receives x q l e) = record {
    fifo = append-nil p.queue ∙ e;
    same = λ f. ground (arith, ap (how_many f) e);
  }
  Step-IsFollowed {p} (fires before x behind e d) = record {
    fifo = append-nil p.queue;
    same = λ f. ground (
      arith,
      ap (how_many f) e,
      how_many-append f before (x ∷ behind),
      how_many-append f before behind,
      how_many_done-append f p.handled ((x, p.now) ∷ []),
    );
  }
  Step-IsFollowed {p} (passes later h) = record {
    fifo = append-nil p.queue;
    same = λ f. omega arith;
  }

  IsFollowed-trans :
      {p q r : Pool A} {sent more received further : List A}
      → IsFollowed p sent received q
      → IsFollowed q more further r
      → IsFollowed p (sent ++ more) (received ++ further) r
  IsFollowed-trans {p} {q} {r} {sent} {more} {received} {further} a b = record {
    fifo =
        sym (append_assoc p.queue sent more)
        ∙ ap (λ l. l ++ more) a.fifo
        ∙ append_assoc received q.queue more
        ∙ ap (λ l. received ++ l) b.fifo
        ∙ sym (append_assoc received further r.queue);
    same = λ f. omega (arith, a.same f, b.same f, how_many-append f sent more);
  }

  -- However the loop, the goroutines and the time take turns, from a state in which the channel and
  -- the goroutines are within their bounds and nothing was handled early, one such is reached; the
  -- goroutines receive the values in the order in which they were sent; and each value that was there
  -- or was sent is in the channel, with a goroutine, or has been handled, once.
  pub Steps-IsServed :
      {p q : Pool A} {sent received : List A}
      → Steps due room n p sent received q
      → IsServed p
      → IsServed q × IsFollowed p sent received q
  unfolding how_many
  Steps-IsServed {p} here v = (v, record { fifo = append-nil p.queue; same = λ f. omega arith })
  Steps-IsServed (next s ss) v =
      let (w, f) = Steps-IsServed ss (Step-IsServed s v) in
      (w, IsFollowed-trans (Step-IsFollowed s) f)
