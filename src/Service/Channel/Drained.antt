-- ===== src/Service/Channel/Drained.antt =====
-- Every value that was sent can be handled, if there is a goroutine.
use mathlib.Core.Path.{subst}
use cdrrs.Base.{
  ℕ, ◌+◌, ◌<◌, ◌≡◌, refl, sym, ap, ◌∙◌, Bool, List, [], ◌∷◌, ◌++◌, append_assoc, append-nil, length,
  length-append, arith,
}
use cdrrs.Service.Channel.{Pool, Steps, sends, receives, fires, passes, here, next}
use cdrrs.Service.Channel.Served.{how_many, how_many_done, all_of, IsServed, Steps-IsServed}

module _ {A : Type 0} (due : A → ℕ) (room n : ℕ) where
  -- The states that are reached without another send, in which a goroutine is free.
  record Reaches (p : Pool A) (queue : List A) : Type 0 where
    end : Pool A
    received : List A
    steps : Steps due room n p [] received end
    queue_is : end.queue ≡ queue
    idle : end.waiting ≡ []

  Steps-append :
      {p q r : Pool A} {xs ys zs ws : List A}
      → Steps due room n p xs zs q
      → Steps due room n q ys ws r
      → Steps due room n p (xs ++ ys) (zs ++ ws) r
  Steps-append here t = t
  Steps-append {p} {r = r} {ys = ys} {ws = ws}
        (next {sent = xs} {more = more} {received = zs} {further = further} s ss) t =
      subst (λ l. Steps due room n p l ((zs ++ further) ++ ws) r) (sym (append_assoc xs more ys))
        (subst (λ l. Steps due room n p (xs ++ (more ++ ys)) l r) (sym (append_assoc zs further ws))
          (next s (Steps-append ss t)))

  -- One goroutine after the other waits for what it holds.
  all_fire :
      (queue waiting : List A) (handled : List (A × ℕ)) (now : ℕ)
      → Reaches (record { queue = queue; waiting = waiting; handled = handled; now = now }) queue
  all_fire queue [] handled now = record {
    end = _;
    received = [];
    steps = here;
    queue_is = refl;
    idle = refl;
  }
  all_fire queue (x ∷ waiting) handled now =
      let r = all_fire queue waiting (handled ++ (x, now + due x) ∷ []) (now + due x) in
      record {
        end = r.end;
        received = r.received;
        steps =
            next (passes (now + due x) (omega arith))
              (next (fires [] x waiting refl (omega arith)) r.steps);
        queue_is = r.queue_is;
        idle = r.idle;
      }

  -- All goroutines and the channel, one value after the other.
  Steps-idle : (p : Pool A) → 0 < n → Reaches p []
  Steps-idle p h = go p.queue p.waiting p.handled p.now
    where
      go :
          (queue waiting : List A) (handled : List (A × ℕ)) (now : ℕ)
          → Reaches (record { queue = queue; waiting = waiting; handled = handled; now = now }) []
      go [] waiting handled now = all_fire [] waiting handled now
      go (x ∷ queue) waiting handled now =
          let r = all_fire (x ∷ queue) waiting handled now in
          let rest = go queue (x ∷ r.end.waiting) r.end.handled r.end.now in
          let free : length r.end.waiting < n = omega (arith, ap length r.idle, h) in
          record {
            end = rest.end;
            received = r.received ++ x ∷ rest.received;
            steps = Steps-append r.steps (next (receives x queue free r.queue_is) rest.steps);
            queue_is = rest.queue_is;
            idle = rest.idle;
          }

  -- What every value of a pool comes to: received in its order, if it was not yet, and handled.
  pub record IsHandled (p : Pool A) : Type 0 where
    pub last : Pool A
    pub path : Steps due room n p [] p.queue last
    pub handled_are : (f : A → Bool) → how_many_done f last.handled ≡ all_of f p

  -- With a goroutine at least, whatever is in the channel and with the goroutines, and whatever the
  -- time: there is a way to go on without another send in which the goroutines receive what is in
  -- the channel, in its order, and everything that was in the channel or with a goroutine has been
  -- handled at the end, once, as what was handled before.
  pub Steps-IsHandled : (p : Pool A) → 0 < n → IsServed due room n p → IsHandled p
  unfolding how_many
  Steps-IsHandled p h v =
      let r = Steps-idle p h in
      let (served, followed) = Steps-IsServed due room n r.steps v in
      record {
        last = r.end;
        path =
            subst (λ l. Steps due room n p [] l r.end)
              (sym (append-nil r.received)
                ∙ sym (ap (λ l. r.received ++ l) r.queue_is)
                ∙ sym followed.fifo
                ∙ append-nil p.queue)
              r.steps;
        handled_are =
            λ f. omega (arith, followed.same f, ap (how_many f) r.queue_is, ap (how_many f) r.idle);
      }

  -- Without a goroutine nothing is received or handled.
  pub Steps-nothing :
      {p q : Pool A} {sent received : List A}
      → n ≡ 0
      → p.waiting ≡ []
      → Steps due room n p sent received q
      → (received ≡ []) × (q.waiting ≡ []) × (q.handled ≡ p.handled)
  Steps-nothing z w here = (refl, w, refl)
  Steps-nothing z w (next (sends x l) ss) = Steps-nothing z w ss
  Steps-nothing z w (next (receives x q l e) ss) = absurd (omega (arith, z))
  Steps-nothing z w (next (fires before x behind e d) ss) =
      absurd (omega (arith, ap length (sym w ∙ e), length-append before (x ∷ behind)))
  Steps-nothing z w (next (passes later h) ss) = Steps-nothing z w ss
