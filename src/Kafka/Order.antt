-- ===== src/Kafka/Order.antt =====
-- What reaches the Kafka client, and in which order.
use mathlib.Core.List.Sublistᴰ
use mathlib.Core.List.{Sublistᴰ}
use mathlib.Core.Path.{subst}
use cdrrs.Base.{
  ℕ, ◌≤◌, ◌≡◌, refl, sym, ap, List, [], ◌∷◌, ◌++◌, append_assoc, append-nil, Option, none, some,
  ltb, ltb→lt, length, length-append, Bytes, arith, Bool-cases, inl, inr,
}
use cdrrs.Kafka.{
  Message, Producer, message_of, log, Step, Steps, logs, receives, sends, closes, quits, here, more,
  new_producer,
}

abbrev held_list : Option Message → List Message
held_list none = []
held_list (some m) = m ∷ []

-- All messages that are not dropped: sent, held or waiting.
abbrev pub kept : Producer → List Message
kept p = p.input ++ (held_list p.held ++ p.msg_q)

-- The messages that are kept are some of those that were logged, in their order.
pub record InOrder (ms : List Message) (p : Producer) : Type 0 where
  pub kept-Sublistᴰ : Sublistᴰ (kept p) ms
  pub bounded : length p.msg_q ≤ p.max_message

same_kept :
    (ms : List Message) (p q : Producer)
    → kept q ≡ kept p
    → length q.msg_q ≤ q.max_message
    → InOrder ms p
    → InOrder (ms ++ []) q
same_kept ms p q e b h = record {
  kept-Sublistᴰ =
      subst (λ l. Sublistᴰ (kept q) l) (sym (append-nil ms))
        (subst (λ l. Sublistᴰ l ms) (sym e) h.kept-Sublistᴰ);
  bounded = b;
}

kept-log :
    (ms : List Message) (key value : Bytes) (p : Producer)
    → InOrder ms p
    → InOrder (ms ++ message_of key value p ∷ []) (log key value p)
unfolding log
kept-log ms key value p h = elim (Bool-cases (ltb (length p.msg_q) p.max_message)) [
  | inl e ↦ rw e (record {
    kept-Sublistᴰ =
        subst (λ l. Sublistᴰ l (ms ++ m ∷ [])) assoc
          (Sublistᴰ.append h.kept-Sublistᴰ (Sublistᴰ.refl (m ∷ [])));
    bounded = omega (arith, length-append p.msg_q (m ∷ []), ltb→lt _ _ e);
  })
  | inr n ↦ rw n (record {
    kept-Sublistᴰ =
        subst (λ l. Sublistᴰ l (ms ++ m ∷ [])) (append-nil (kept p))
          (Sublistᴰ.append h.kept-Sublistᴰ (Sublistᴰ.nil-sublist (m ∷ [])));
    bounded = h.bounded;
  })
]
  where
    m : Message
    m = message_of key value p

    assoc : kept p ++ m ∷ [] ≡ p.input ++ (held_list p.held ++ (p.msg_q ++ m ∷ []))
    assoc = simp append_assoc

Step-InOrder :
    (ms ns : List Message) (p q : Producer) → InOrder ms p → Step p ns q → InOrder (ms ++ ns) q
Step-InOrder ms ns p q h (logs key value) = kept-log ms key value p h
Step-InOrder ms ns p q h (receives m rest r n e) =
    same_kept ms p q (rw (n, e) refl) (omega (arith, h.bounded, ap length e)) h
Step-InOrder ms ns p q h (sends m e) =
    same_kept ms p q (rw e (append_assoc p.input (m ∷ []) p.msg_q)) h.bounded h
Step-InOrder ms ns p q h (closes e) = same_kept ms p q refl h.bounded h
Step-InOrder ms ns p q h (quits r n e) = same_kept ms p q refl h.bounded h

-- From a new producer, whatever is logged, received and sent, in whatever interleaving, and whether
-- it is closed meanwhile: the messages that were sent, then the one that is held, then those that
-- wait, are some of those that were logged, each once and in their order, and no more wait than
-- there is room for.
pub Steps-InOrder :
    (topic : Bytes) (max_message : ℕ) (ms : List Message) (p : Producer)
    → Steps (new_producer topic max_message) ms p
    → InOrder ms p
unfolding new_producer
Steps-InOrder topic max_message ms p here = record {
  kept-Sublistᴰ = Sublistᴰ.slnil;
  bounded = omega arith;
}
Steps-InOrder topic max_message ms p (more {q = q} {ms = ns} {ns = ks} x s) =
    Step-InOrder ns ks q p (Steps-InOrder topic max_message ns q x) s
