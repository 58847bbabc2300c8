-- ===== src/Service/Records/Tables.antt =====
-- The table of each record.
use cdrrs.Dao.Statements.{print_number}
use cdrrs.Base.{
  Option, none, some, pos, Bytes, ℕ, ◌≡◌, refl, ap, ◌&&◌, ◌||◌, Bool, true, false, not, List, [],
  ◌∷◌, ◌++◌, ◌==◌, equal, equal_iff, is_empty, length, arith, All, Bool-cases, inl, inr,
}
use cdrrs.Model.Cdr.{VoipCdr, set_cdr_table}
use cdrrs.Service.Records.{
  Call, create_table, multi_insert_cdr, push_cdr, log_encoded, Records, Arrival, collected, ticked,
  stamp, is_due, flush_cdr_to_db, push_cdr_to_kafka, change_table, add_cdr, on_arrival, handle_cdr,
}

-- A batch holds records of its table only.
abbrev pub IsOwn : Call → Type 0
IsOwn (multi_insert_cdr t cdrs) = All (λ c. c.table_name ≡ t) cdrs
IsOwn (create_table t) = Unit
IsOwn (push_cdr k v) = Unit

-- The records that wait are of the current table, if there is one, and the batches were of theirs.
pub record Own (s : Records) : Type 0 where
  pub waiting : All (λ c. c.table_name ≡ s.cur_table_name) s.cdrs
  pub batches : All IsOwn s.calls
  pub named : (not (is_empty s.cur_table_name) || is_empty s.cdrs) ≡ true

All-snoc :
    {A : Type 0} (P : A → Type 0) (xs : List A) (x : A) → All P xs → P x → All P (xs ++ x ∷ [])
All-snoc P [] x h p = (p, tt)
All-snoc P (y ∷ xs) x (h, hs) p = (h, All-snoc P xs x hs p)

all_of_none : {A : Type 0} (P : A → Type 0) (xs : List A) → is_empty xs ≡ true → All P xs
all_of_none P [] e = tt
all_of_none P (x ∷ xs) e = ground arith

-- Nothing waits.
emptied : (s : Records) → is_empty s.cdrs ≡ true → All IsOwn s.calls → Own s
emptied s e b = record { waiting = all_of_none _ s.cdrs e; batches = b; named = ground arith }

flush_cdr_to_db-Own : (s : Records) → Own s → Own (flush_cdr_to_db s)
unfolding flush_cdr_to_db
flush_cdr_to_db-Own s v = elim (Bool-cases (is_empty s.cdrs)) [
  | inl e ↦ rw e v
  | inr n ↦ rw n (record {
    waiting = tt;
    batches = All-snoc IsOwn s.calls (multi_insert_cdr s.cur_table_name s.cdrs) v.batches v.waiting;
    named = ground arith;
  })
]

flush_cdr_to_db-nil : (s : Records) → (flush_cdr_to_db s).cdrs ≡ []
unfolding flush_cdr_to_db
flush_cdr_to_db-nil s = ground arith

module _ (enable : Bool) (marshal : VoipCdr → Option Bytes) (max_flush_cap duration : ℕ) where
  push_cdr_to_kafka-Own :
      (cdr : VoipCdr) (s : Records)
      → Own s
      → Own (push_cdr_to_kafka enable marshal max_flush_cap duration cdr s)
  unfolding push_cdr_to_kafka log_encoded
  push_cdr_to_kafka-Own cdr s v = elim (Bool-cases enable) [
    | inl e ↦ rw e (encoded (marshal cdr))
    | inr n ↦ rw n v
  ]
    where
      encoded : (o : Option Bytes) → Own (log_encoded enable marshal max_flush_cap duration cdr o s)
      encoded none = v
      encoded (some bs) = record {
        waiting = v.waiting;
        batches = All-snoc IsOwn s.calls (push_cdr (print_number (pos cdr.id)) bs) v.batches tt;
        named = v.named;
      }

  -- The table of the record is the current one behind the change.
  change_table-Own :
      (now : ℕ) (cdr : VoipCdr) (s : Records)
      → Own s
      → Own (change_table enable marshal max_flush_cap duration now cdr s)
        × (cdr.table_name
            ≡ (change_table enable marshal max_flush_cap duration now cdr s).cur_table_name)
  unfolding change_table
  change_table-Own now cdr s v =
      let created = record s { calls = s.calls ++ create_table cdr.table_name ∷ [] } in
      let w : Own created = record {
        waiting = v.waiting;
        batches = All-snoc IsOwn s.calls (create_table cdr.table_name) v.batches tt;
        named = v.named;
      } in
      elim (Bool-cases (equal cdr.table_name s.cur_table_name)) [
        | inl e ↦ rw e (v, (equal_iff cdr.table_name s.cur_table_name).0 e)
        | inr n ↦ rw n (elim (Bool-cases (is_empty s.cur_table_name)) [
          | inl e ↦ rw e (
            emptied (record created { cur_table_name = cdr.table_name }) (none_wait e v.named)
                w.batches,
            refl,
          )
          | inr m ↦ rw m (
            emptied _ (ap is_empty (flush_cdr_to_db-nil created))
                (flush_cdr_to_db-Own created w).batches,
            refl,
          )
        ])
      ]
    where
      none_wait :
          is_empty s.cur_table_name ≡ true
          → (not (is_empty s.cur_table_name) || is_empty s.cdrs) ≡ true
          → is_empty s.cdrs ≡ true
      none_wait e h = ground arith

  add_cdr-Own :
      (now : ℕ) (cdr : VoipCdr) (s : Records)
      → Own s
      → cdr.table_name ≡ s.cur_table_name
      → is_empty cdr.table_name ≡ false
      → Own (add_cdr enable marshal max_flush_cap duration now cdr s)
  unfolding add_cdr
  add_cdr-Own now cdr s v e n =
      let s' = record s { cdrs = s.cdrs ++ cdr ∷ [] } in
      let w : Own s' = record {
        waiting = All-snoc (λ c. c.table_name ≡ s.cur_table_name) s.cdrs cdr v.waiting e;
        batches = v.batches;
        named = rw (← e) (rw n refl);
      } in
      elim (Bool-cases (length (s.cdrs ++ cdr ∷ []) == max_flush_cap)) [
        | inl f ↦
            rw f
              (emptied _ (ap is_empty (flush_cdr_to_db-nil s')) (flush_cdr_to_db-Own s' w).batches)
        | inr f ↦ rw f w
      ]

  on_arrival-Own :
      (s : Records) (a : Arrival)
      → Own s
      → Own (on_arrival enable marshal max_flush_cap duration s a)
  unfolding on_arrival stamp set_cdr_table
  on_arrival-Own s (collected cdr t formatted truncated now) v =
      let (next, c) = stamp t formatted truncated s.counter cdr in
      let s' = record s { counter = next } in
      let w : Own s' = record { waiting = v.waiting; batches = v.batches; named = v.named } in
      let changed = change_table-Own now c _ (push_cdr_to_kafka-Own c s' w) in
      add_cdr-Own now c _ changed.0 changed.1 refl
  on_arrival-Own s (ticked now) v =
      elim (Bool-cases (
        not (is_empty s.cdrs) && is_due enable marshal max_flush_cap duration s.proc_db_time now)) [
          | inl e ↦
              rw e
                (emptied _ (ap is_empty (flush_cdr_to_db-nil s)) (flush_cdr_to_db-Own s v).batches)
          | inr n ↦ rw n v
        ]

  -- From a state in which every batch so far held records of its own table only and those that wait
  -- are of the current table, and none waits before there is a table: whatever records and ticks
  -- arrive, the state that is reached is such a state again.
  pub handle_cdr-Own :
      (s : Records) (arrivals : List Arrival)
      → Own s
      → Own (handle_cdr enable marshal max_flush_cap duration s arrivals)
  unfolding handle_cdr
  handle_cdr-Own s [] v = v
  handle_cdr-Own s (a ∷ arrivals) v =
      handle_cdr-Own (on_arrival enable marshal max_flush_cap duration s a) arrivals
        (on_arrival-Own s a v)
