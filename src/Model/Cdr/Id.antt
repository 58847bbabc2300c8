-- ===== src/Model/Cdr/Id.antt =====
-- The ids of the records.
use cdrrs.Base.{ℕ, ◌+◌, ◌/◌, ◌%◌, ◌<◌, ◌≡◌, arith}
use cdrrs.Model.Cdr.{VoipCdr, TimeOfDay, set_cdr_id}

-- A time as a clock shows it.
pub record IsTime (t : TimeOfDay) : Type 0 where
  pub hours : t.hour < 24
  pub minutes : t.minute < 60
  pub seconds : t.second < 60
  pub nanoseconds : t.nanosecond < 1_000_000_000

-- Two records that get the same id got it in the same microsecond of a day, and their counters
-- differ by a multiple of 1000; every id is below that of midnight, so it fits 64 bits.
pub id-set_cdr_id :
    (t u : TimeOfDay) (m n : ℕ) (a b : VoipCdr)
    → IsTime t
    → IsTime u
    → (set_cdr_id t m a).1.id ≡ (set_cdr_id u n b).1.id
    → (t.hour ≡ u.hour)
      × (t.minute ≡ u.minute)
      × (t.second ≡ u.second)
      × (t.nanosecond / 1000 ≡ u.nanosecond / 1000)
      × ((m + 1) % 1000 ≡ (n + 1) % 1000)
      × ((set_cdr_id t m a).1.id < 86_400_000_000_000)
unfolding set_cdr_id
id-set_cdr_id t u m n a b ht hu e = omega arith
