-- ===== src/Kafka.antt =====
-- common/kafka/producer.go: the queue of messages in front of the Kafka client, and the goroutine
-- that empties it. The loop behind the start of the goroutine in `Run` finds the queue empty, since
-- `Log` is called after `Run`, and is left out.
pub mod Order
pub mod Quit
use cdrrs.Base.{
  ℕ, Bool, true, false, List, [], ◌∷◌, ◌++◌, Option, none, some, ◌≡◌, ltb, if◌then◌else◌, length,
  Bytes,
}

pub record Message : Type 0 where
  pub topic : Bytes
  pub key : Bytes
  pub value : Bytes

-- `msg_q` has room for `max_message` messages, at least one. `held` is what the goroutine has
-- received and not yet sent, `input` what has been sent to the client, and `closing` whether
-- `closeChan` is closed.
pub record Producer : Type 0 where
  pub topic : Bytes
  pub max_message : ℕ
  pub msg_q : List Message
  pub held : Option Message
  pub input : List Message
  pub running : Bool
  pub closing : Bool

abbrev pub message_of : Bytes → Bytes → Producer → Message
message_of key value p = record { topic = p.topic; key = key; value = value }

-- A message for which there is no room is dropped.
unfoldable pub log : Bytes → Bytes → Producer → Producer
log key value p =
    if ltb (length p.msg_q) p.max_message
    then record p { msg_q = p.msg_q ++ message_of key value p ∷ [] }
    else p

-- A step, and the messages that it logs. An error of the client is only printed.
pub data Step : Producer → List Message → Producer → Type 0 where
  logs : {p : Producer} (key value : Bytes) → Step p (message_of key value p ∷ []) (log key value p)
  receives :
      {p : Producer} (m : Message) (q : List Message)
      → p.running ≡ true
      → p.held ≡ none
      → p.msg_q ≡ m ∷ q
      → Step p [] (record p { msg_q = q; held = some m })
  sends :
      {p : Producer} (m : Message)
      → p.held ≡ some m
      → Step p [] (record p { input = p.input ++ m ∷ []; held = none })
  closes : {p : Producer} → p.closing ≡ false → Step p [] (record p { closing = true })
  quits :
      {p : Producer}
      → p.running ≡ true
      → p.held ≡ none
      → p.closing ≡ true
      → Step p [] (record p { running = false })

-- Any number of steps, and all messages that were logged, in their order.
pub data Steps : Producer → List Message → Producer → Type 0 where
  here : {p : Producer} → Steps p [] p
  more :
      {p q r : Producer} {ms ns : List Message} → Steps p ms q → Step q ns r → Steps p (ms ++ ns) r

-- The state that `NewProducer` and `Run` leave.
unfoldable pub new_producer : Bytes → ℕ → Producer
new_producer topic max_message = record {
  topic = topic;
  max_message = max_message;
  msg_q = [];
  held = none;
  input = [];
  running = true;
  closing = false;
}
