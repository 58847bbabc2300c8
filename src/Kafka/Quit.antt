-- ===== src/Kafka/Quit.antt =====
-- What becomes of the messages that wait when the producer is closed.
use cdrrs.Base.{
  ◌≡◌, refl, sym, ◌∙◌, ap, Bool, true, false, List, [], ◌∷◌, ◌++◌, append_assoc, append-nil, Option,
  none, some, ltb, length, Bytes, Bool-cases, inl, inr,
}
use cdrrs.Kafka.{
  Message, Producer, message_of, log, Step, Steps, logs, receives, sends, closes, quits, here, more,
}

true-ne-false : {b : Bool} → b ≡ true → b ≡ false → ⊥
true-ne-false e f = cc

some-ne-none : {o : Option Message} {m : Message} → o ≡ some m → o ≡ none → ⊥
some-ne-none e f = cc

-- The goroutine has quit; these messages were sent before, and these wait.
pub record IsQuit (sent waiting : List Message) (p : Producer) : Type 0 where
  pub is_stopped : p.running ≡ false
  pub holds_none : p.held ≡ none
  pub sent_is : p.input ≡ sent
  pub later : List Message
  pub waiting_is : p.msg_q ≡ waiting ++ later

log-IsQuit :
    (sent waiting : List Message) (key value : Bytes) (p : Producer)
    → IsQuit sent waiting p
    → IsQuit sent waiting (log key value p)
unfolding log
log-IsQuit sent waiting key value p h = elim (Bool-cases (ltb (length p.msg_q) p.max_message)) [
  | inl e ↦ rw e (record {
    is_stopped = h.is_stopped;
    holds_none = h.holds_none;
    sent_is = h.sent_is;
    later = h.later ++ message_of key value p ∷ [];
    waiting_is =
        ap (λ l. l ++ message_of key value p ∷ []) h.waiting_is
        ∙ append_assoc waiting h.later (message_of key value p ∷ []);
  })
  | inr n ↦ rw n h
]

Step-IsQuit :
    (sent waiting ns : List Message) (p q : Producer)
    → IsQuit sent waiting p
    → Step p ns q
    → IsQuit sent waiting q
Step-IsQuit sent waiting ns p q h (logs key value) = log-IsQuit sent waiting key value p h
Step-IsQuit sent waiting ns p q h (receives m rest r n e) = absurd (true-ne-false r h.is_stopped)
Step-IsQuit sent waiting ns p q h (sends m e) = absurd (some-ne-none e h.holds_none)
Step-IsQuit sent waiting ns p q h (closes e) = record {
  is_stopped = h.is_stopped;
  holds_none = h.holds_none;
  sent_is = h.sent_is;
  later = h.later;
  waiting_is = h.waiting_is;
}
Step-IsQuit sent waiting ns p q h (quits r n e) = absurd (true-ne-false r h.is_stopped)

Steps-IsQuit :
    (sent waiting ms : List Message) (p q : Producer)
    → IsQuit sent waiting p
    → Steps p ms q
    → IsQuit sent waiting q
Steps-IsQuit sent waiting ms p q h here = h
Steps-IsQuit sent waiting ms p q h (more {q = r} {ms = ns} {ns = ks} x s) =
    Step-IsQuit sent waiting ks r q (Steps-IsQuit sent waiting ns p r h x) s

-- The goroutine can quit in the state `p` as it is, and in the state `q` nothing has been sent since
-- then: what waited in `p` waits in `q`, in front of what was logged later.
pub record IsLeft (p q : Producer) : Type 0 where
  pub may_quit : Step p [] (record p { running = false })
  pub sent_same : q.input ≡ p.input
  pub later : List Message
  pub still_waiting : q.msg_q ≡ p.msg_q ++ later

-- A producer that has been closed, whose goroutine runs and holds no message, can quit at once,
-- however many messages wait in its queue. After that, whatever steps follow, none of these messages
-- is sent: they are in the queue for ever, in front of those that are logged later, and the messages
-- that were sent are the same as before.
pub Steps-IsLeft :
    (p q : Producer) (ms : List Message)
    → p.running ≡ true
    → p.held ≡ none
    → p.closing ≡ true
    → Steps (record p { running = false }) ms q
    → IsLeft p q
Steps-IsLeft p q ms r n c s = record {
  may_quit = quits r n c;
  sent_same = end.sent_is;
  later = end.later;
  still_waiting = end.waiting_is;
}
  where
    end : IsQuit p.input p.msg_q q
    end =
        Steps-IsQuit p.input p.msg_q ms (record p { running = false }) q
          (record {
            is_stopped = refl;
            holds_none = n;
            sent_is = refl;
            later = [];
            waiting_is = sym (append-nil p.msg_q);
          })
          s
