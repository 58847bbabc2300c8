-- ===== src/Service/Records/Batches.antt =====
-- The batches of records, in the order of their arrival.
use cdrrs.Dao.Statements.{print_number}
use cdrrs.Base.{
  Option, none, some, pos, Bytes, ℕ, ◌≡◌, refl, sym, ap, ◌∙◌, ◌&&◌, Bool, not, List, [], ◌∷◌, ◌++◌,
  append-nil, append_assoc, ◌==◌, equal, is_empty, length, arith, Bool-cases, inl, inr,
}
use cdrrs.Model.Cdr.{VoipCdr}
use cdrrs.Service.Records.{
  Call, create_table, multi_insert_cdr, push_cdr, log_encoded, Records, Arrival, collected, ticked,
  stamp, is_due, flush_cdr_to_db, push_cdr_to_kafka, change_table, add_cdr, on_arrival, handle_cdr,
}

-- The records of the batches.
unfoldable pub inserted : List Call → List VoipCdr
inserted [] = []
inserted (multi_insert_cdr t cdrs ∷ calls) = cdrs ++ inserted calls
inserted (_ ∷ calls) = inserted calls

inserted-append : (a b : List Call) → inserted (a ++ b) ≡ inserted a ++ inserted b
unfolding inserted
inserted-append [] b = refl
inserted-append (multi_insert_cdr t cdrs ∷ a) b =
    ap (λ x. cdrs ++ x) (inserted-append a b) ∙ sym (append_assoc cdrs (inserted a) (inserted b))
inserted-append (create_table t ∷ a) b = inserted-append a b
inserted-append (push_cdr k v ∷ a) b = inserted-append a b

-- The records that were inserted, and then those that wait.
unfoldable pub everything : Records → List VoipCdr
everything s = inserted s.calls ++ s.cdrs

-- A call that inserts nothing.
everything-call :
    (s : Records) (c : Call)
    → inserted (c ∷ []) ≡ []
    → everything (record s { calls = s.calls ++ c ∷ [] }) ≡ everything s
unfolding everything
everything-call s c h =
    ap (λ x. x ++ s.cdrs) (inserted-append s.calls (c ∷ []) ∙ rw h (append-nil _))

everything-flush : (s : Records) → everything (flush_cdr_to_db s) ≡ everything s
unfolding everything flush_cdr_to_db inserted
everything-flush s = elim (Bool-cases (is_empty s.cdrs)) [
  | inl e ↦ rw e refl
  | inr n ↦ rw n (
      append-nil _
      ∙ inserted-append s.calls _
      ∙ ap (λ x. inserted s.calls ++ x) (append-nil s.cdrs))
]

counter-flush : (s : Records) → (flush_cdr_to_db s).counter ≡ s.counter
unfolding flush_cdr_to_db
counter-flush s = ground arith

-- The records of the arrivals, as the setters leave them, and the counter behind them.
unfoldable pub stamped : ℕ → List Arrival → List VoipCdr
stamped counter [] = []
stamped counter (collected cdr t formatted truncated now ∷ arrivals) =
    let (next, c) = stamp t formatted truncated counter cdr in c ∷ stamped next arrivals
stamped counter (ticked now ∷ arrivals) = stamped counter arrivals

module _ (enable : Bool) (marshal : VoipCdr → Option Bytes) (max_flush_cap duration : ℕ) where
  everything-push_cdr_to_kafka :
      (cdr : VoipCdr) (s : Records)
      → everything (push_cdr_to_kafka enable marshal max_flush_cap duration cdr s) ≡ everything s
  unfolding push_cdr_to_kafka log_encoded inserted
  everything-push_cdr_to_kafka cdr s = elim (Bool-cases enable) [
    | inl e ↦ rw e (encoded (marshal cdr))
    | inr n ↦ rw n refl
  ]
    where
      encoded :
          (o : Option Bytes)
          → everything (log_encoded enable marshal max_flush_cap duration cdr o s) ≡ everything s
      encoded none = refl
      encoded (some bs) = everything-call s (push_cdr (print_number (pos cdr.id)) bs) refl

  everything-change_table :
      (now : ℕ) (cdr : VoipCdr) (s : Records)
      → everything (change_table enable marshal max_flush_cap duration now cdr s) ≡ everything s
  unfolding change_table inserted everything
  everything-change_table now cdr s =
      let created = record s { calls = s.calls ++ create_table cdr.table_name ∷ [] } in
      elim (Bool-cases (equal cdr.table_name s.cur_table_name)) [
        | inl e ↦ rw e refl
        | inr n ↦ rw n (elim (Bool-cases (is_empty s.cur_table_name)) [
          | inl e ↦ rw e (everything-call s (create_table cdr.table_name) refl)
          | inr m ↦
              rw m (everything-flush created ∙ everything-call s (create_table cdr.table_name) refl)
        ])
      ]

  everything-add_cdr :
      (now : ℕ) (cdr : VoipCdr) (s : Records)
      → everything (add_cdr enable marshal max_flush_cap duration now cdr s)
        ≡ everything s ++ cdr ∷ []
  unfolding add_cdr everything
  everything-add_cdr now cdr s =
      let s' = record s { cdrs = s.cdrs ++ cdr ∷ [] } in
      elim (Bool-cases (length (s.cdrs ++ cdr ∷ []) == max_flush_cap)) [
        | inl e ↦
            rw e (everything-flush s' ∙ sym (append_assoc (inserted s.calls) s.cdrs (cdr ∷ [])))
        | inr n ↦ rw n (sym (append_assoc (inserted s.calls) s.cdrs (cdr ∷ [])))
      ]

  pub counter-steps :
      (now : ℕ) (cdr : VoipCdr) (s : Records)
      → (add_cdr enable marshal max_flush_cap duration now cdr (
          change_table enable marshal max_flush_cap duration now cdr
            (push_cdr_to_kafka enable marshal max_flush_cap duration cdr s))).counter
        ≡ s.counter
  unfolding add_cdr change_table push_cdr_to_kafka log_encoded flush_cdr_to_db
  counter-steps now cdr s = ground arith

  everything-tick :
      (s : Records) (now : ℕ)
      → everything (on_arrival enable marshal max_flush_cap duration s (ticked now)) ≡ everything s
  unfolding on_arrival everything
  everything-tick s now =
      elim (Bool-cases (
        not (is_empty s.cdrs) && is_due enable marshal max_flush_cap duration s.proc_db_time now)) [
          | inl e ↦ rw e (everything-flush s)
          | inr n ↦ rw n refl
        ]

  pub counter-tick :
      (s : Records) (now : ℕ)
      → (on_arrival enable marshal max_flush_cap duration s (ticked now)).counter ≡ s.counter
  unfolding on_arrival
  counter-tick s now =
      elim (Bool-cases (
        not (is_empty s.cdrs) && is_due enable marshal max_flush_cap duration s.proc_db_time now)) [
          | inl e ↦ rw e (counter-flush s)
          | inr n ↦ rw n refl
        ]

  -- A record that is collected, stamped with the next count, is the last of all.
  everything-collected :
      (s : Records) (next now : ℕ) (c : VoipCdr)
      → everything (
          add_cdr enable marshal max_flush_cap duration now c (
            change_table enable marshal max_flush_cap duration now c (
              push_cdr_to_kafka enable marshal max_flush_cap duration c
                (record s { counter = next }))))
        ≡ everything s ++ c ∷ []
  unfolding everything
  everything-collected s next now c =
      everything-add_cdr now c _
      ∙ ap (λ x. x ++ c ∷ [])
          (everything-change_table now c _
            ∙ everything-push_cdr_to_kafka c (record s { counter = next }))

  -- Whatever records and ticks arrive: the records that were inserted, batch after batch, and then
  -- those that wait are the ones there were and then those that arrived, each stamped with the
  -- counter of its place. None is lost, inserted twice or out of order.
  pub inserted-handle_cdr :
      (s : Records) (arrivals : List Arrival)
      → everything (handle_cdr enable marshal max_flush_cap duration s arrivals)
        ≡ everything s ++ stamped s.counter arrivals
  unfolding handle_cdr stamped on_arrival
  inserted-handle_cdr s [] = sym (append-nil (everything s))
  inserted-handle_cdr s (collected cdr t formatted truncated now ∷ arrivals) =
      let (next, c) = stamp t formatted truncated s.counter cdr in
      inserted-handle_cdr
        (on_arrival enable marshal max_flush_cap duration s
          (collected cdr t formatted truncated now))
        arrivals
      ∙ rw (everything-collected s next now c, counter-steps now c (record s { counter = next }))
          (append_assoc (everything s) (c ∷ []) (stamped next arrivals))
  inserted-handle_cdr s (ticked now ∷ arrivals) =
      inserted-handle_cdr (on_arrival enable marshal max_flush_cap duration s (ticked now)) arrivals
      ∙ rw (everything-tick s now, counter-tick s now) refl
