-- ===== src/Tests/Memory.antt =====
-- A Redis server in memory, and the cache on it.
use cdrrs.Base.{
  ap, sym, Bool-cases, equal_iff, ◌∙◌, ℕ, ◌≡◌, refl, ◌⊎◌, inl, inr, Bool, true, false, ◌&&◌, ◌||◌,
  List, [], ◌∷◌, ◌++◌, arith, Option, none, some, Result, ok, err, ◌==◌, if◌then◌else◌, equal,
  is_empty, map, Bytes,
}
use cdrrs.Model.Item.{SipCache, empty_sip_item}
use cdrrs.Service.Dao.{Dao}
use cdrrs.Service.Dao.Store.{member, AreDistinct, View}
use cdrrs.Dao.Redis.{
  Redis, RedisError, other, Codec, Command, set, mset, get, mget, del, sadd, smembers, scard, scan,
  select,
}
use cdrrs.Dao.Filled.{redis_dao}
use cdrrs.Dao.Selected.{Connections, is_select}
use cdrrs.Dao.Server.{latest, Server, IsCodec}
use cdrrs.Dao.Server.Stored.{redis_view}
use cdrrs.Tests.Data.{invite, bye}

pub record Memory : Type 0 where
  pub selected : ℕ → ℕ
  pub texts : ℕ → Bytes → Option Bytes
  pub sets : ℕ → Bytes → List Bytes

pub data Reply : Type 0 where
  status refused : Reply
  slices : List (Option Bytes) → Reply
  strings : List Bytes → Reply

-- The members of a set, each once.
unfoldable pub dedup : List Bytes → List Bytes
dedup [] = []
dedup (k ∷ ks) = let rest = dedup ks in if member k ks then rest else k ∷ rest

member-dedup : (x : Bytes) (ks : List Bytes) → member x (dedup ks) ≡ member x ks
unfolding dedup
member-dedup x [] = refl
member-dedup x (k ∷ ks) = ground (arith, member-dedup x ks, equal_iff k x)

dedup-AreDistinct : (ks : List Bytes) → AreDistinct (dedup ks)
unfolding dedup
dedup-AreDistinct [] = tt
dedup-AreDistinct (k ∷ ks) = elim (Bool-cases (member k ks)) [
  | inl e ↦ rw e (dedup-AreDistinct ks)
  | inr n ↦ rw n (member-dedup k ks ∙ n, dedup-AreDistinct ks)
]

-- A server that is full refuses SADD.
abbrev pub answer : Bool → ℕ → Command → Memory → Reply
answer full c (mget ks) m = slices (map (m.texts (m.selected c)) ks)
answer full c (smembers k) m = strings (dedup (m.sets (m.selected c) k))
answer full c (sadd k ks) m = if full then refused else status
answer full c _ m = status

abbrev pub effect : ℕ → Command → Memory → Memory
effect c (mset kvs) m = record m {
  texts = λ n k. if n == m.selected c then latest kvs k (m.texts n k) else m.texts n k;
}
effect c (del ks) m = record m {
  texts = λ n k. if n == m.selected c && member k ks then none else m.texts n k;
  sets = λ n k. if n == m.selected c && member k ks then [] else m.sets n k;
}
effect c (sadd k ks) m = record m {
  sets = λ n j. if n == m.selected c && equal k j then ks ++ m.sets n j else m.sets n j;
}
effect c (select n) m = record m { selected = λ j. if c == j then n else m.selected j }
effect c (set k v) m = m
effect c (get k) m = m
effect c (mget ks) m = m
effect c (smembers k) m = m
effect c (scard k) m = m
effect c (scan n) m = m

abbrev pub byte_slices : Reply → Result RedisError (List (Option Bytes))
byte_slices (slices bss) = ok bss
byte_slices status = err other
byte_slices refused = err other
byte_slices (strings ks) = err other

abbrev pub strings_of : Reply → Result RedisError (List Bytes)
strings_of (strings ks) = ok ks
strings_of _ = err other

abbrev pub is_refused : Reply → Bool
is_refused refused = true
is_refused _ = false

abbrev pub memory_redis : Bool → Redis
memory_redis full = record {
  State = Memory;
  Answer = Reply;
  take_conn = λ m. (7, m);
  close = λ c m. m;
  call = λ c command m. (answer full c command m, effect c command m);
  failed = is_refused;
  send = λ c command m. (false, effect c command m);
  flush = λ c m. (false, m);
  as_bytes = λ a. err other;
  as_byte_slices = byte_slices;
  as_strings = strings_of;
  as_int = λ a. err other;
  as_scan = λ a. none;
}

pub selected_same :
    (c : ℕ) (command : Command) (m : Memory)
    → is_select command ≡ false
    → (effect c command m).selected ≡ m.selected
selected_same c (select n) m e = cc
selected_same c (set k v) m e = refl
selected_same c (mset kvs) m e = refl
selected_same c (get k) m e = refl
selected_same c (mget ks) m e = refl
selected_same c (del ks) m e = refl
selected_same c (sadd k ks) m e = refl
selected_same c (smembers k) m e = refl
selected_same c (scard k) m e = refl
selected_same c (scan n) m e = refl

abbrev pub connections : (full : Bool) → Connections (memory_redis full)
connections full = record {
  selected = λ m. m.selected;
  broken = λ m c. false;
  selected-take_conn = λ m. refl;
  selected-close = λ c m j. refl;
  selected-call = selected_same;
  selected-select = λ c n m j. refl;
  selected-send = λ c kvs m. refl;
  selected-flush = λ c m. refl;
}

member-append :
    (x : Bytes) (xs ys : List Bytes) → member x (xs ++ ys) ≡ (member x xs || member x ys)
member-append x [] ys = refl
member-append x (y ∷ xs) ys = ground (arith, member-append x xs ys)

pub in_set_added :
    (c : ℕ) (k : Bytes) (ks : List Bytes) (m : Memory) (n : ℕ) (j x : Bytes)
    → is_empty ks ≡ false
    → m.texts (m.selected c) k ≡ none
    → member x ((effect c (sadd k ks) m).sets n j)
      ≡ ((n == m.selected c && equal k j && member x ks) || member x (m.sets n j))
in_set_added c k ks m n j x e t = ground (arith, member-append x ks (m.sets n j))

pub members :
    (c : ℕ) (k : Bytes) (m : Memory)
    → m.texts (m.selected c) k ≡ none
    → (mem : List Bytes) × (strings_of (answer false c (smembers k) m) ≡ ok mem)
      × AreDistinct mem
      × ((x : Bytes) → member x mem ≡ member x (m.sets (m.selected c) k))
members c k m e =
    let ks = m.sets (m.selected c) k in
    (dedup ks, refl, dedup-AreDistinct ks, λ x. member-dedup x ks)

abbrev pub server : Server (memory_redis false) (connections false)
server = record {
  text = λ m. m.texts;
  in_set = λ m n j x. member x (m.sets n j);
  text-take_conn = λ m. refl;
  in_set-take_conn = λ m. refl;
  text-close = λ c m. refl;
  in_set-close = λ c m. refl;
  failed-select = λ c n m. refl;
  text-select = λ c n m. refl;
  in_set-select = λ c n m. refl;
  failed-send = λ c kvs m. refl;
  text-mset = λ c kvs m n k e. refl;
  answer-mget = λ c ks m e. refl;
  text-mget = λ c ks m. refl;
  text-del = λ c ks m n k e. refl;
  failed-del = λ c ks m e. refl;
  answer-smembers = members;
  text-smembers = λ c k m. refl;
  failed-sadd = λ c k ks m e t. refl;
  text-sadd = λ c k ks m. refl;
  in_set-sadd = in_set_added;
}

-- An encoding of the two halves of the call, as far as the tests use it.
abbrev pub codec : Codec
codec = record {
  marshal = λ v. some v.connect_time;
  unmarshal = λ bs v.
      some (if is_empty bs then record bye { call_id = [] } else record invite { call_id = [] });
}

-- An item without its Call-ID, which is not encoded.
abbrev pub unnamed : SipCache → SipCache
unnamed v = record v { call_id = [] }

abbrev pub IsOne : SipCache → Type 0
IsOne v = (unnamed v ≡ unnamed invite) ⊎ (unnamed v ≡ unnamed bye)

pub decodes :
    (v : SipCache)
    → IsOne v
    → (bs : Bytes) × (codec.marshal v ≡ some bs)
      × (codec.unmarshal bs empty_sip_item ≡ some (record v { call_id = [] }))
decodes v (inl e) = (
  v.connect_time,
  refl,
  ap (λ (x : SipCache). codec.unmarshal x.connect_time empty_sip_item) e ∙ sym (ap some e),
)
decodes v (inr e) = (
  v.connect_time,
  refl,
  ap (λ (x : SipCache). codec.unmarshal x.connect_time empty_sip_item) e ∙ sym (ap some e),
)

abbrev pub is_codec : IsCodec codec
is_codec = record { Fits = IsOne; unmarshal-marshal = decodes }

abbrev pub nothing : Memory
nothing = record { selected = λ j. 0; texts = λ n k. none; sets = λ n k. [] }

abbrev pub cache : Dao
cache = redis_dao (memory_redis false) codec empty_sip_item

abbrev pub view : View cache
view = redis_view (memory_redis false) (connections false) server codec is_codec empty_sip_item
