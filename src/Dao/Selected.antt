-- ===== src/Dao/Selected.antt =====
-- The database that each connection of the pool has selected.
use cdrrs.Base.{ℕ, ◌≡◌, ap, Bool, true, false, not, ◌&&◌, List, ◌==◌, if◌then◌else◌, Bytes, arith}
use cdrrs.Dao.Redis.{Redis, Command, select, set, mset, get, mget, del, sadd, smembers, scard, scan}
use cdrrs.Dao.Sets.{select_db, on_sets}

abbrev pub is_select : Command → Bool
is_select (select n) = true
is_select (set k v) = false
is_select (mset kvs) = false
is_select (get k) = false
is_select (mget ks) = false
is_select (del ks) = false
is_select (sadd k ks) = false
is_select (smembers k) = false
is_select (scard k) = false
is_select (scan n) = false

-- A connection keeps its database until a SELECT of its own succeeds; the pool does not reset it.
-- `Close` drops a connection that is broken, as one is behind a failure of the network: under its
-- number stands a new one then, on the first database. An error that the server answers with does
-- not break it.
pub record Connections (r : Redis) : Type 0 where
  pub selected : r.State → ℕ → ℕ
  pub broken : r.State → ℕ → Bool
  pub selected-take_conn : (s : r.State) → selected (r.take_conn s).1 ≡ selected s
  pub selected-close :
      (c : ℕ) (s : r.State) (j : ℕ)
      → selected (r.close c s) j ≡ (if broken s c && c == j then 0 else selected s j)
  pub selected-call :
      (c : ℕ) (command : Command) (s : r.State)
      → is_select command ≡ false
      → selected (r.call c command s).1 ≡ selected s
  pub selected-select :
      (c n : ℕ) (s : r.State) (j : ℕ)
      → selected (r.call c (select n) s).1 j
        ≡ (if not (r.failed (r.call c (select n) s).0) && c == j then n else selected s j)
  pub selected-send :
      (c : ℕ) (kvs : List (Bytes × Bytes)) (s : r.State)
      → selected (r.send c (mset kvs) s).1 ≡ selected s
  pub selected-flush : (c : ℕ) (s : r.State) → selected (r.flush c s).1 ≡ selected s

module _ (r : Redis) (cs : Connections r) where
  -- Every connection is on the first database, as a new one is.
  abbrev pub Clean : r.State → Type 0
  Clean s = (j : ℕ) → cs.selected s j ≡ 0

  -- The SELECT of the second database succeeds, and then the command or the SELECT of the first one
  -- fails, but the connection is not broken when it is closed.
  abbrev pub leaks : Command → r.State → Bool
  leaks command s =
      let (c, t) = r.take_conn s in
      let (a, u) = r.call c (select 1) t in
      let (b, v) = r.call c command u in
      let (d, w) = r.call c (select 0) v in
      not (r.failed a)
      && (if r.failed b then not (cs.broken v c) else r.failed d && not (cs.broken w c))

  -- An operation on the sets (SADD and DEL) that starts with every connection on the first database
  -- leaves its connection in the pool on the second one exactly when the first SELECT succeeds, and
  -- the command, or else the SELECT behind it, fails there without breaking the connection; every
  -- other connection stays where it was, and one that is broken is replaced.
  pub selected-on_sets :
      (command : Command) (s : r.State) (j : ℕ)
      → is_select command ≡ false
      → Clean s
      → cs.selected (on_sets r command s) j
        ≡ (if leaks command s && (r.take_conn s).0 == j then 1 else 0)
  unfolding on_sets select_db
  selected-on_sets command s j n h =
      let c = (r.take_conn s).0 in
      let t = (r.take_conn s).1 in
      let u = (r.call c (select 1) t).1 in
      let v = (r.call c command u).1 in
      let w = (r.call c (select 0) v).1 in
      ground (
        arith,
        h j,
        ap (λ f. f j) (cs.selected-take_conn s),
        cs.selected-select c 1 t j,
        ap (λ f. f j) (cs.selected-call c command u n),
        cs.selected-select c 0 v j,
        cs.selected-close c t j,
        cs.selected-close c u j,
        cs.selected-close c v j,
        cs.selected-close c w j,
      )
