-- ===== src/Service/Expiry/Pool/Startup.antt =====
-- How many sets a process can find at its start.
use cdrrs.Base.{
  ℕ, suc, ◌+◌, ◌≤◌, ◌≡◌, refl, ap, ◌∙◌, true, false, List, [], ◌∷◌, ◌++◌, append_assoc, none, some,
  ltb, ltb→lt, leb, append-nil, if◌then◌else◌, length, length-append, map, All, Bytes, arith,
  Bool-cases, inl, inr,
}
use cdrrs.Dao.Redis.{Redis}
use cdrrs.Dao.Sets.{select_db, get_expired_sip_item_keys_sets}
use cdrrs.Dao.Scanned.{all_keys, Scans}
use cdrrs.Service.Expiry.{Zone, sip_item_keys_set_id}
use cdrrs.Service.Expiry.Names.{IsZone}
use cdrrs.Service.Expiry.Timers.{AreDue}
use cdrrs.Service.Expiry.Restart.{unrelated_expired_keys_synth-AreDue}
use cdrrs.Service.Expiry.Pool.{capacity, send, send_all, run}

fits : (m n : ℕ) → m ≤ n → leb (m + 0) n ≡ true
fits m n h = ground arith

too_many : (m k n : ℕ) → ltb m n ≡ false → leb (m + suc k) n ≡ false
too_many m k n h = ground arith

one_more : (m k : ℕ) → m + 1 + k ≡ m + suc k
one_more m k = omega arith

-- Sends into a channel that nothing empties.
send_all_lem :
    {A : Type 0} (room : ℕ) (more q : List A)
    → length q ≤ room
    → send_all room more q ≡ (if leb (length q + length more) room then some (q ++ more) else none)
unfolding send_all send
send_all_lem room [] q h = rw (fits (length q) room h, append-nil q) refl
send_all_lem room (es ∷ more) q h = elim (Bool-cases (ltb (length q) room)) [
  | inl e ↦
      rw
        (
          e,
          send_all,
          send,
          send_all_lem room more (q ++ es ∷ [])
              (omega (arith, length-append q (es ∷ []), ltb→lt _ _ e)),
          length-append q (es ∷ []),
          append_assoc q (es ∷ []) more,
          one_more (length q) (length more),
        )
        refl
  | inr n ↦ rw (n, send_all, send, too_many (length q) (length more) room n) refl
]

length-AreDue :
    (zone : Zone) (is : IsZone zone) (cached_life : ℕ) (now : ℕ → ℕ) (i : ℕ) (ts : List ℕ)
    (timers : List (Bytes × ℕ))
    → AreDue zone is cached_life now i ts timers
    → length timers ≡ length ts
length-AreDue zone is cached_life now i [] [] h = refl
length-AreDue zone is cached_life now i [] (x ∷ timers) h = absurd h
length-AreDue zone is cached_life now i (t ∷ ts) [] h = absurd h
length-AreDue zone is cached_life now i (t ∷ ts) ((sid, d) ∷ timers) (e, (f, h)) =
    omega (arith, length-AreDue zone is cached_life now (i + 1) ts timers h)

-- At start-up, if the second database can be selected, SCAN comes to its end there after some pages,
-- and their keys are the names that sets were given at moments that can be read back: `Run` comes
-- to the start of its goroutines when there are at most 10000 sets, with a timer for each in the
-- channel, due when it should be; with more sets it never does.
pub run-AreDue :
    (r : Redis) (zone : Zone) (is : IsZone zone) (cached_life : ℕ) (now : ℕ → ℕ) (fuel : ℕ)
    (s t : r.State) (pages : List (List Bytes)) (ts : List ℕ)
    → length pages ≤ fuel
    → (select_db r (r.take_conn s).0 1 (r.take_conn s).1).0 ≡ false
    → Scans r (r.take_conn s).0 0 (select_db r (r.take_conn s).0 1 (r.take_conn s).1).1 pages t
    → all_keys pages ≡ map (sip_item_keys_set_id zone) ts
    → All is.Readable ts
    → (timers : List (Bytes × ℕ)) × (u : r.State) × (run zone
          (get_expired_sip_item_keys_sets r fuel)
          cached_life
          now
          s
        ≡ some ((if leb (length ts) capacity then some timers else none), u))
      × AreDue zone is cached_life now 0 ts timers
unfolding run
run-AreDue r zone is cached_life now fuel s t pages ts h e x k v =
    let (timers, u, same, due) =
      unrelated_expired_keys_synth-AreDue r zone is cached_life now fuel s t pages ts h e x k v in
    (
      timers,
      u,
      rw (run, same)
          (ap (λ o. some (o, u))
            (send_all_lem capacity timers [] (omega arith)
              ∙ ap (λ k. if leb k capacity then some timers else none)
                  (omega (arith, length-AreDue zone is cached_life now 0 ts timers due)))),
      due,
    )
