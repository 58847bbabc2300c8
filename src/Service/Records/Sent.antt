-- ===== src/Service/Records/Sent.antt =====
-- What `handleCDR` hands to the Kafka producer, `pushCDRToKafka` of service/serve.go.
use cdrrs.Base.{
  ℕ, ◌≡◌, refl, sym, ap, ◌∙◌, ◌&&◌, Bool, not, List, [], ◌∷◌, ◌++◌, append-nil, append_assoc,
  Option, none, some, pos, ◌==◌, equal, is_empty, length, if◌then◌else◌, Bool-cases, inl, inr,
  Bytes,
}
use cdrrs.Dao.Statements.{print_number}
use cdrrs.Model.Cdr.{VoipCdr}
use cdrrs.Service.Records.{
  Call, create_table, multi_insert_cdr, push_cdr, Records, Arrival, collected, ticked, stamp,
  is_due, flush_cdr_to_db, log_encoded, push_cdr_to_kafka, change_table, add_cdr, on_arrival,
  handle_cdr,
}
use cdrrs.Service.Records.Batches.{stamped, counter-steps, counter-tick}

-- The messages, each a key and a value.
unfoldable pub messages : List Call → List (Bytes × Bytes)
messages [] = []
messages (push_cdr key value ∷ calls) = (key, value) ∷ messages calls
messages (create_table t ∷ calls) = messages calls
messages (multi_insert_cdr t cdrs ∷ calls) = messages calls

messages-append : (a b : List Call) → messages (a ++ b) ≡ messages a ++ messages b
unfolding messages
messages-append [] b = refl
messages-append (push_cdr k v ∷ a) b = ap (λ l. (k, v) ∷ l) (messages-append a b)
messages-append (create_table t ∷ a) b = messages-append a b
messages-append (multi_insert_cdr t cdrs ∷ a) b = messages-append a b

module _ (enable : Bool) (marshal : VoipCdr → Option Bytes) (max_flush_cap duration : ℕ) where
  -- The message of a record, if it can be encoded.
  abbrev message : VoipCdr → Option Bytes → List (Bytes × Bytes)
  message cdr none = []
  message cdr (some bs) = (print_number (pos cdr.id), bs) ∷ []

  unfoldable pub messages_of : List VoipCdr → List (Bytes × Bytes)
  messages_of [] = []
  messages_of (cdr ∷ cdrs) = (if enable then message cdr (marshal cdr) else []) ++ messages_of cdrs

  messages-flush : (s : Records) → messages (flush_cdr_to_db s).calls ≡ messages s.calls
  unfolding flush_cdr_to_db messages
  messages-flush s = elim (Bool-cases (is_empty s.cdrs)) [
    | inl e ↦ rw e refl
    | inr n ↦
        rw n
          (messages-append s.calls (multi_insert_cdr s.cur_table_name s.cdrs ∷ []) ∙ append-nil _)
  ]

  messages-push :
      (cdr : VoipCdr) (s : Records)
      → messages (push_cdr_to_kafka enable marshal max_flush_cap duration cdr s).calls
        ≡ messages s.calls ++ (if enable then message cdr (marshal cdr) else [])
  unfolding push_cdr_to_kafka log_encoded messages
  messages-push cdr s = elim (Bool-cases enable) [
    | inl e ↦ rw e (encoded (marshal cdr))
    | inr n ↦ rw n (sym (append-nil _))
  ]
    where
      encoded :
          (o : Option Bytes)
          → messages (log_encoded enable marshal max_flush_cap duration cdr o s).calls
            ≡ messages s.calls ++ message cdr o
      encoded none = sym (append-nil _)
      encoded (some bs) = messages-append s.calls (push_cdr (print_number (pos cdr.id)) bs ∷ [])

  messages-change_table :
      (now : ℕ) (cdr : VoipCdr) (s : Records)
      → messages (change_table enable marshal max_flush_cap duration now cdr s).calls
        ≡ messages s.calls
  unfolding change_table messages
  messages-change_table now cdr s =
      let created : Records = record s { calls = s.calls ++ create_table cdr.table_name ∷ [] } in
      let same : messages created.calls ≡ messages s.calls =
        messages-append s.calls (create_table cdr.table_name ∷ []) ∙ append-nil _ in
      elim (Bool-cases (equal cdr.table_name s.cur_table_name)) [
        | inl e ↦ rw e refl
        | inr n ↦ rw n (elim (Bool-cases (is_empty s.cur_table_name)) [
          | inl e ↦ rw e same
          | inr m ↦ rw m (messages-flush created ∙ same)
        ])
      ]

  messages-add_cdr :
      (now : ℕ) (cdr : VoipCdr) (s : Records)
      → messages (add_cdr enable marshal max_flush_cap duration now cdr s).calls ≡ messages s.calls
  unfolding add_cdr
  messages-add_cdr now cdr s = elim (Bool-cases (length (s.cdrs ++ cdr ∷ []) == max_flush_cap)) [
    | inl e ↦ rw e (messages-flush (record s { cdrs = s.cdrs ++ cdr ∷ [] }))
    | inr n ↦ rw n refl
  ]

  messages-tick :
      (s : Records) (now : ℕ)
      → messages (on_arrival enable marshal max_flush_cap duration s (ticked now)).calls
        ≡ messages s.calls
  unfolding on_arrival
  messages-tick s now =
      elim (Bool-cases (
        not (is_empty s.cdrs) && is_due enable marshal max_flush_cap duration s.proc_db_time now)) [
          | inl e ↦ rw e (messages-flush s)
          | inr n ↦ rw n refl
        ]

  messages-collected :
      (s : Records) (next now : ℕ) (c : VoipCdr)
      → messages
          (add_cdr enable marshal max_flush_cap duration now c (
            change_table enable marshal max_flush_cap duration now c (
              push_cdr_to_kafka enable marshal max_flush_cap duration c
                (record s { counter = next })))).calls
        ≡ messages s.calls ++ (if enable then message c (marshal c) else [])
  messages-collected s next now c =
      let pushed =
        push_cdr_to_kafka enable marshal max_flush_cap duration c (record s { counter = next }) in
      messages-add_cdr now c (change_table enable marshal max_flush_cap duration now c pushed)
      ∙ messages-change_table now c pushed
      ∙ messages-push c (record s { counter = next })

  -- Whatever records and ticks arrive: if Kafka is enabled, the messages that the producer is given
  -- are those it was given before and then one for each record that can be encoded, in the order of
  -- their arrival and whatever becomes of their batches, with the id of the record as it was stamped
  -- for a key and the encoding of the stamped record for a value; otherwise there are no new ones.
  pub messages-handle_cdr :
      (s : Records) (arrivals : List Arrival)
      → messages (handle_cdr enable marshal max_flush_cap duration s arrivals).calls
        ≡ messages s.calls ++ messages_of (stamped s.counter arrivals)
  unfolding handle_cdr stamped on_arrival messages_of
  messages-handle_cdr s [] = sym (append-nil (messages s.calls))
  messages-handle_cdr s (collected cdr t formatted truncated now ∷ arrivals) =
      let (next, c) = stamp t formatted truncated s.counter cdr in
      messages-handle_cdr
        (on_arrival enable marshal max_flush_cap duration s
          (collected cdr t formatted truncated now))
        arrivals
      ∙ rw
          (
            messages-collected s next now c,
            counter-steps enable marshal max_flush_cap duration now c (record s { counter = next }),
          )
          (append_assoc (messages s.calls) (if enable then message c (marshal c) else [])
            (messages_of (stamped next arrivals)))
  messages-handle_cdr s (ticked now ∷ arrivals) =
      messages-handle_cdr (on_arrival enable marshal max_flush_cap duration s (ticked now)) arrivals
      ∙ rw (messages-tick s now, counter-tick enable marshal max_flush_cap duration s now) refl
