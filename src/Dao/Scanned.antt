-- ===== src/Dao/Scanned.antt =====
-- `GetExpiredSipItemKeysSets`: the loop goes through the pages of SCAN until the cursor is zero.
use cdrrs.Base.{
  ℕ, zero, suc, ◌≤◌, ◌≡◌, refl, ap, ◌∙◌, true, false, List, [], ◌∷◌, ◌++◌, append_assoc, append-nil,
  some, ◌==◌, Bytes, arith, length,
}
use cdrrs.Dao.Redis.{Redis, scan}
use cdrrs.Dao.Sets.{select_db, scan_pages, scanned, get_expired_sip_item_keys_sets}

-- All pages, one behind the other.
unfoldable pub all_keys : List (List Bytes) → List Bytes
all_keys [] = []
all_keys (page ∷ pages) = page ++ all_keys pages

module _ (r : Redis) (conn : ℕ) where
  -- From a cursor and a state, SCAN answers these pages and then is at its end, in another state.
  pub data Scans : ℕ → r.State → List (List Bytes) → r.State → Type 0 where
    last :
        {cursor : ℕ} {s : r.State} {page : List Bytes}
        → r.as_scan (r.call conn (scan cursor) s).0 ≡ some (0, page)
        → Scans cursor s (page ∷ []) (r.call conn (scan cursor) s).1
    next :
        {cursor : ℕ} {s t : r.State} {after : ℕ} {page : List Bytes} {pages : List (List Bytes)}
        → r.as_scan (r.call conn (scan cursor) s).0 ≡ some (after, page)
        → (after == 0) ≡ false
        → Scans after (r.call conn (scan cursor) s).1 pages t
        → Scans cursor s (page ∷ pages) t

  scan_pages-all_keys :
      (fuel cursor : ℕ) (s t : r.State) (sids : List Bytes) (pages : List (List Bytes))
      → length pages ≤ fuel
      → Scans cursor s pages t
      → scan_pages r fuel conn cursor sids s ≡ some (true, sids ++ all_keys pages, t)
  unfolding scan_pages all_keys
  scan_pages-all_keys zero cursor s t sids [] h x = elim x [ ]
  scan_pages-all_keys (suc fuel) cursor s t sids [] h x = elim x [ ]
  scan_pages-all_keys zero cursor s t sids (page ∷ pages) h x = absurd (omega arith)
  scan_pages-all_keys (suc fuel) cursor s t sids (page ∷ pages) h (last e) =
      rw (scan_pages, e, append-nil page) refl
  scan_pages-all_keys (suc fuel) cursor s t sids (page ∷ pages) h (next e n x) =
      rw (scan_pages, e, n)
        (scan_pages-all_keys fuel _ _ t (sids ++ page) pages (omega arith) x
          ∙ ap (λ l. some (true, l, t)) (append_assoc sids page (all_keys pages)))

module _ (r : Redis) where
  -- If the second database can be selected and SCAN comes to its end there after some pages, then
  -- with fuel for as many rounds the operation returns all keys of the pages, in their order, and
  -- what it does after them is to select the first database and to give the connection back.
  pub get_expired_sip_item_keys_sets-all_keys :
      (fuel : ℕ) (s t : r.State) (pages : List (List Bytes))
      → length pages ≤ fuel
      → (select_db r (r.take_conn s).0 1 (r.take_conn s).1).0 ≡ false
      → Scans r (r.take_conn s).0 0 (select_db r (r.take_conn s).0 1 (r.take_conn s).1).1 pages t
      → get_expired_sip_item_keys_sets r fuel s
        ≡ some (all_keys pages, r.close (r.take_conn s).0 (select_db r (r.take_conn s).0 0 t).1)
  unfolding get_expired_sip_item_keys_sets scanned
  get_expired_sip_item_keys_sets-all_keys fuel s t pages h e x =
      rw (e, scan_pages-all_keys r (r.take_conn s).0 fuel 0 _ t [] pages h x) refl
