-- ===== src/Dao/Sets.antt =====
-- dao/redis_sipitem.go: the sets of keys that expire, which stand in the second database. Each
-- operation selects that database, and the first one again at its end, but for its early returns.
use cdrrs.Base.{
  ℕ, zero, suc, Bool, true, false, List, [], ◌++◌, Option, none, some, ok, err, ◌==◌, if◌then◌else◌,
  Bytes,
}
use cdrrs.Dao.Redis.{Redis, err_nil, other, Command, sadd, smembers, scard, scan, del, select}

module _ (r : Redis) where
  -- Whether there is an error.
  unfoldable pub select_db : ℕ → ℕ → r.State → Bool × r.State
  select_db conn index s = let (a, s) = r.call conn (select index) s in (r.failed a, s)

  -- A command on the second database, of which only the error counts.
  unfoldable pub on_sets : Command → r.State → r.State
  unfolding select_db
  on_sets command s =
      let (conn, s) = r.take_conn s in
      let (select_err, s) = select_db conn 1 s in
      if select_err
      then r.close conn s
      else let (a, s) = r.call conn command s in
        if r.failed a then r.close conn s else r.close conn (select_db conn 0 s).1

  unfoldable pub cache_expired_sip_item_keys_set : Bytes → List Bytes → r.State → r.State
  unfolding on_sets
  cache_expired_sip_item_keys_set key ids = on_sets (sadd key ids)

  unfoldable pub del_expired_sip_item_keys_sets : List Bytes → r.State → r.State
  unfolding on_sets
  del_expired_sip_item_keys_sets sids = on_sets (del sids)

  -- The members, or nil, and whether there is an error.
  unfoldable pub get_expired_sip_item_keys_set_members :
      Bytes → r.State → (List Bytes × Bool) × r.State
  unfolding select_db
  get_expired_sip_item_keys_set_members k s =
      let (conn, s) = r.take_conn s in
      let (select_err, s) = select_db conn 1 s in
      if select_err
      then (([], false), r.close conn s)
      else let (a, s) = r.call conn (smembers k) s in
        elim (r.as_strings a) [
          | err err_nil ↦ (([], false), r.close conn s)
          | err other ↦ (([], true), r.close conn s)
          | ok mem ↦ ((mem, false), r.close conn (select_db conn 0 s).1)
        ]

  unfoldable pub get_expired_sip_item_keys_set_size : Bytes → r.State → ℕ × r.State
  unfolding select_db
  get_expired_sip_item_keys_set_size key s =
      let (conn, s) = r.take_conn s in
      let (select_err, s) = select_db conn 1 s in
      if select_err
      then (0, r.close conn s)
      else let (a, s) = r.call conn (scard key) s in
        elim (r.as_int a) [
          | err e ↦ (0, r.close conn s)
          | ok n ↦ (n, r.close conn (select_db conn 0 s).1)
        ]

  -- The loop over the pages of SCAN: whether it came to its end, the keys, and the state. `none`
  -- is fuel that ran out.
  unfoldable pub scan_pages :
      ℕ → ℕ → ℕ → List Bytes → r.State → Option (Bool × List Bytes × r.State)
  scan_pages zero conn start_cursor sids s = none
  scan_pages (suc fuel) conn start_cursor sids s =
      let (a, s) = r.call conn (scan start_cursor) s in
      elim (r.as_scan a) [
        | none ↦ some (false, sids, s)
        | some (end_cursor, trunked_sids) ↦ elim (end_cursor == 0) [
          | true ↦ some (true, sids ++ trunked_sids, s)
          | false ↦ scan_pages fuel conn end_cursor (sids ++ trunked_sids) s
        ]
      ]

  unfoldable pub scanned : ℕ → Option (Bool × List Bytes × r.State) → Option (List Bytes × r.State)
  unfolding select_db
  scanned conn none = none
  scanned conn (some (false, sids, s)) = some (sids, r.close conn s)
  scanned conn (some (true, sids, s)) = some (sids, r.close conn (select_db conn 0 s).1)

  unfoldable pub get_expired_sip_item_keys_sets : ℕ → r.State → Option (List Bytes × r.State)
  unfolding scanned scan_pages select_db
  get_expired_sip_item_keys_sets fuel s =
      let (conn, s) = r.take_conn s in
      let (select_err, s) = select_db conn 1 s in
      if select_err then some ([], r.close conn s) else scanned conn (scan_pages fuel conn 0 [] s)
