-- ===== src/Tests/Kafka.antt =====
-- A queue with room for one message, which is closed while it holds one.
use cdrrs.Base.{refl, true, false, [], ◌∷◌, none, codes, Bytes}
use cdrrs.Kafka
use cdrrs.Kafka.{Message, Producer, log, Step, Steps, new_producer}
use cdrrs.Kafka.Order.{InOrder, Steps-InOrder}
use cdrrs.Kafka.Quit.{IsLeft, Steps-IsLeft}

abbrev new : Producer
new = record {
  topic = codes "cdr";
  max_message = 1;
  msg_q = [];
  held = none;
  input = [];
  running = true;
  closing = false;
}

abbrev message : Bytes → Message
message key = record { topic = codes "cdr"; key = key; value = codes "v" }

-- Three messages are logged; there is room for the first two only, as one is received meanwhile.
abbrev first : Message
first = message (codes "1")

abbrev after_close : Producer
after_close = record new { msg_q = message (codes "2") ∷ []; input = first ∷ []; closing = true }

logged : Steps new (first ∷ message (codes "2") ∷ message (codes "3") ∷ []) after_close
unfolding log
logged =
    Kafka.Steps.more
      (Kafka.Steps.more
        (Kafka.Steps.more
          (Kafka.Steps.more
            (Kafka.Steps.more
              (Kafka.Steps.more Kafka.Steps.here (Kafka.Step.logs (codes "1") (codes "v")))
              (Kafka.Step.receives first [] refl refl refl))
            (Kafka.Step.logs (codes "2") (codes "v")))
          (Kafka.Step.logs (codes "3") (codes "v")))
        (Kafka.Step.sends first refl))
      (Kafka.Step.closes refl)

Steps-InOrder_example : InOrder (first ∷ message (codes "2") ∷ message (codes "3") ∷ []) after_close
unfolding new_producer
Steps-InOrder_example =
    Steps-InOrder (codes "cdr") 1 (first ∷ message (codes "2") ∷ message (codes "3") ∷ [])
      after_close logged

abbrev after_quit : Producer
after_quit = record after_close { running = false }

more_logged : Steps after_quit (message (codes "4") ∷ []) after_quit
unfolding log
more_logged = Kafka.Steps.more Kafka.Steps.here (Kafka.Step.logs (codes "4") (codes "v"))

-- The second message is in the queue for ever.
Steps-IsLeft_example : IsLeft after_close after_quit
Steps-IsLeft_example =
    Steps-IsLeft after_close after_quit (message (codes "4") ∷ []) refl refl refl more_logged
