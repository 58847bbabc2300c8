-- ===== src/Service/Expiry/Restart.antt =====
-- service/synth.go, `unrelatedExpiredKeysSynth`, over the sets of dao/redis_sipitem.go.
use mathlib.Core.Path.{subst}
use cdrrs.Base.{ℕ, ◌≤◌, ◌≡◌, refl, sym, false, List, some, map, length, All, Bytes}
use cdrrs.Dao.Redis.{Redis}
use cdrrs.Dao.Sets.{select_db, get_expired_sip_item_keys_sets}
use cdrrs.Dao.Scanned.{all_keys, Scans, get_expired_sip_item_keys_sets-all_keys}
use cdrrs.Service.Expiry.{Zone, sip_item_keys_set_id, start_timers, unrelated_expired_keys_synth}
use cdrrs.Service.Expiry.Names.{IsZone}
use cdrrs.Service.Expiry.Timers.{AreDue, start_timers-AreDue}

-- At start-up, if the second database can be selected, SCAN comes to its end there after some pages,
-- and their keys are the names that sets were given at moments that can be read back: the sets are
-- gone through, and each gets one timer, which fires when its life, counted from the millisecond of
-- its name, ends, or after a second if it has ended.
pub unrelated_expired_keys_synth-AreDue :
    (r : Redis) (zone : Zone) (is : IsZone zone) (cached_life : ℕ) (now : ℕ → ℕ) (fuel : ℕ)
    (s t : r.State) (pages : List (List Bytes)) (ts : List ℕ)
    → length pages ≤ fuel
    → (select_db r (r.take_conn s).0 1 (r.take_conn s).1).0 ≡ false
    → Scans r (r.take_conn s).0 0 (select_db r (r.take_conn s).0 1 (r.take_conn s).1).1 pages t
    → all_keys pages ≡ map (sip_item_keys_set_id zone) ts
    → All is.Readable ts
    → (timers : List (Bytes × ℕ)) × (u : r.State) × (unrelated_expired_keys_synth zone
          (get_expired_sip_item_keys_sets r fuel)
          cached_life
          now
          s
        ≡ some (timers, u))
      × AreDue zone is cached_life now 0 ts timers
unfolding unrelated_expired_keys_synth
unrelated_expired_keys_synth-AreDue r zone is cached_life now fuel s t pages ts h e x k v = (
  start_timers zone cached_life now 0 (all_keys pages),
  r.close (r.take_conn s).0 (select_db r (r.take_conn s).0 0 t).1,
  rw (unrelated_expired_keys_synth, get_expired_sip_item_keys_sets-all_keys r fuel s t pages h e x)
      refl,
  subst (λ sids. AreDue zone is cached_life now 0 ts (start_timers zone cached_life now 0 sids))
      (sym k) (start_timers-AreDue zone is cached_life now 0 ts v),
)
