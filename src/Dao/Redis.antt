-- ===== src/Dao/Redis.antt =====
-- What dao/redis_sipitem.go uses of the Redis client, common/cache/redis, and of encoding/json. The
-- server, the pool of connections and the client are a state that is not known.
use cdrrs.Base.{ℕ, Bool, Option, List, Result, Bytes}
use cdrrs.Model.Item.{SipCache}

-- The commands that are sent, with their arguments.
pub data Command : Type 0 where
  set : Bytes → Bytes → Command
  mset : List (Bytes × Bytes) → Command
  get : Bytes → Command
  mget : List Bytes → Command
  del : List Bytes → Command
  sadd : Bytes → List Bytes → Command
  smembers : Bytes → Command
  scard : Bytes → Command
  scan : ℕ → Command
  select : ℕ → Command

-- `redis.ErrNil`, or another error.
pub data RedisError : Type 0 where
  err_nil other : RedisError

pub record Redis : Type 1 where
  pub State : Type 0
  pub Answer : Type 0
  -- `d.redis.Get`, which takes a connection of the pool, and `conn.Close`, which gives it back.
  pub take_conn : State → ℕ × State
  pub close : ℕ → State → State
  -- `conn.Do`, and whether it returned an error.
  pub call : ℕ → Command → State → Answer × State
  pub failed : Answer → Bool
  -- `conn.Send` and `conn.Flush`: whether they returned an error.
  pub send : ℕ → Command → State → Bool × State
  pub flush : ℕ → State → Bool × State
  -- The conversions of an answer; `as_scan` is `redis.Values` and then `redis.Scan` to a cursor and
  -- keys, with `none` for an error of either.
  pub as_bytes : Answer → Result RedisError Bytes
  pub as_byte_slices : Answer → Result RedisError (List (Option Bytes))
  pub as_strings : Answer → Result RedisError (List Bytes)
  pub as_int : Answer → Result RedisError ℕ
  pub as_scan : Answer → Option (ℕ × List Bytes)

-- `json.Marshal` of an item, and `json.Unmarshal` into one; `none` is an error.
pub record Codec : Type 0 where
  pub marshal : SipCache → Option Bytes
  pub unmarshal : Bytes → SipCache → Option SipCache
