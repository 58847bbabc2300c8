-- ===== src/Dao/Server.antt =====
-- What is assumed of a Redis server that is up, and of the encoding: the documented effects of the
-- commands that the dao package sends, with at least one key each.
pub mod Encoded
pub mod Items
pub mod Second
pub mod Stored
use cdrrs.Base.{
  ℕ, ◌≡◌, Bool, true, false, ◌&&◌, ◌||◌, List, [], ◌∷◌, Option, none, some, ok, ◌==◌, if◌then◌else◌,
  equal, is_empty, map, Bytes,
}
use cdrrs.Model.Item.{SipCache, empty_sip_item}
use cdrrs.Service.Dao.Store.{member, AreDistinct}
use cdrrs.Dao.Redis.{Redis, Codec, Command, mset, mget, del, sadd, smembers, select}
use cdrrs.Dao.Selected.{Connections}

-- The last value that is given for a key, or the old one.
abbrev pub latest : List (Bytes × Bytes) → Bytes → Option Bytes → Option Bytes
latest [] k old = old
latest ((j, bs) ∷ kvs) k old = latest kvs k (if equal j k then some bs else old)

-- `text` is the string at a key of a database, and `in_set` says what the set at a key holds.
pub record Server (r : Redis) (cs : Connections r) : Type 0 where
  pub text : r.State → ℕ → Bytes → Option Bytes
  pub in_set : r.State → ℕ → Bytes → Bytes → Bool
  -- The connections of the pool hold no data.
  pub text-take_conn : (s : r.State) → text (r.take_conn s).1 ≡ text s
  pub in_set-take_conn : (s : r.State) → in_set (r.take_conn s).1 ≡ in_set s
  pub text-close : (c : ℕ) (s : r.State) → text (r.close c s) ≡ text s
  pub in_set-close : (c : ℕ) (s : r.State) → in_set (r.close c s) ≡ in_set s
  -- SELECT.
  pub failed-select : (c n : ℕ) (s : r.State) → r.failed (r.call c (select n) s).0 ≡ false
  pub text-select : (c n : ℕ) (s : r.State) → text (r.call c (select n) s).1 ≡ text s
  pub in_set-select : (c n : ℕ) (s : r.State) → in_set (r.call c (select n) s).1 ≡ in_set s
  -- MSET, sent and flushed.
  pub failed-send :
      (c : ℕ) (kvs : List (Bytes × Bytes)) (s : r.State) → (r.send c (mset kvs) s).0 ≡ false
  pub text-mset :
      (c : ℕ) (kvs : List (Bytes × Bytes)) (s : r.State) (n : ℕ) (k : Bytes)
      → is_empty kvs ≡ false
      → text (r.flush c (r.send c (mset kvs) s).1).1 n k
        ≡ (if n == cs.selected s c then latest kvs k (text s n k) else text s n k)
  -- MGET: one answer for each key, nil where there is no string.
  pub answer-mget :
      (c : ℕ) (ks : List Bytes) (s : r.State)
      → is_empty ks ≡ false
      → r.as_byte_slices (r.call c (mget ks) s).0 ≡ ok (map (text s (cs.selected s c)) ks)
  pub text-mget : (c : ℕ) (ks : List Bytes) (s : r.State) → text (r.call c (mget ks) s).1 ≡ text s
  -- DEL.
  pub text-del :
      (c : ℕ) (ks : List Bytes) (s : r.State) (n : ℕ) (k : Bytes)
      → is_empty ks ≡ false
      → text (r.call c (del ks) s).1 n k
        ≡ (if n == cs.selected s c && member k ks then none else text s n k)
  pub failed-del :
      (c : ℕ) (ks : List Bytes) (s : r.State)
      → is_empty ks ≡ false
      → r.failed (r.call c (del ks) s).0 ≡ false
  -- SMEMBERS, where the key holds no string.
  pub answer-smembers :
      (c : ℕ) (k : Bytes) (s : r.State)
      → text s (cs.selected s c) k ≡ none
      → (mem : List Bytes) × (r.as_strings (r.call c (smembers k) s).0 ≡ ok mem)
        × AreDistinct mem
        × ((x : Bytes) → member x mem ≡ in_set s (cs.selected s c) k x)
  pub text-smembers : (c : ℕ) (k : Bytes) (s : r.State) → text (r.call c (smembers k) s).1 ≡ text s
  -- SADD, where the key holds no string.
  pub failed-sadd :
      (c : ℕ) (k : Bytes) (ks : List Bytes) (s : r.State)
      → is_empty ks ≡ false
      → text s (cs.selected s c) k ≡ none
      → r.failed (r.call c (sadd k ks) s).0 ≡ false
  pub text-sadd :
      (c : ℕ) (k : Bytes) (ks : List Bytes) (s : r.State) → text (r.call c (sadd k ks) s).1 ≡ text s
  pub in_set-sadd :
      (c : ℕ) (k : Bytes) (ks : List Bytes) (s : r.State) (n : ℕ) (j x : Bytes)
      → is_empty ks ≡ false
      → text s (cs.selected s c) k ≡ none
      → in_set (r.call c (sadd k ks) s).1 n j x
        ≡ ((n == cs.selected s c && equal k j && member x ks) || in_set s n j x)

-- An item that fits is encoded, and its text is decoded to it, but for the Call-ID, which is not
-- encoded (`json:"-"`).
pub record IsCodec (codec : Codec) : Type 1 where
  pub Fits : SipCache → Type 0
  pub unmarshal-marshal :
      (v : SipCache)
      → Fits v
      → (bs : Bytes) × (codec.marshal v ≡ some bs)
        × (codec.unmarshal bs empty_sip_item ≡ some (record v { call_id = [] }))
