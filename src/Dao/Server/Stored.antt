-- ===== src/Dao/Server/Stored.antt =====
-- dao/redis_sipitem.go on a server that is up keeps what the cache promises.
use mathlib.Core.Path.{subst}
use cdrrs.Base.{
  ◌≡◌, refl, sym, ap, ◌∙◌, Bool, false, some, ◌&&◌, ◌||◌, List, equal, is_empty, Bytes,
}
use cdrrs.Model.Item.{SipCache}
use cdrrs.Service.Dao.Store.{member, AreDistinct, View, IsStore}
use cdrrs.Dao.Redis.{Redis, Codec, sadd, smembers}
use cdrrs.Dao.Items.{item_at}
use cdrrs.Dao.Sets.{cache_expired_sip_item_keys_set}
use cdrrs.Dao.Filled.{members_or_error, redis_dao}
use cdrrs.Dao.Selected.{Connections}
use cdrrs.Dao.Server.{Server, IsCodec}
use cdrrs.Dao.Server.Second.{
  on_second, there, back, selected-second, text-second, text-back, no_text-second, back-Valid,
  on_sets-back, members_lem, members-Valid, item-members, del_sets-Valid, item-del_sets,
}
use cdrrs.Dao.Server.Items.{
  Valid, item, conn, taken, cache-Valid, item-cache, get_lem, get-Valid, item-get, del-Valid,
  item-del,
}

module _ (r : Redis) (cs : Connections r) (sv : Server r cs) (codec : Codec) (ic : IsCodec codec)
    (pooled : SipCache) where
  add-back :
      (sid : Bytes) (ids : List Bytes) (s : r.State)
      → is_empty ids ≡ false
      → Valid r cs sv codec ic pooled s
      → cache_expired_sip_item_keys_set r sid ids s ≡ back r cs sv codec ic pooled (sadd sid ids) s
  unfolding cache_expired_sip_item_keys_set
  add-back sid ids s e v = on_sets-back r cs sv codec ic pooled (sadd sid ids) s (
      sv.failed-sadd (conn r cs sv codec ic pooled s) sid ids _ e
        (no_text-second r cs sv codec ic pooled s sid v))

  text-add :
      (sid : Bytes) (ids : List Bytes) (s : r.State)
      → sv.text (there r cs sv codec ic pooled (sadd sid ids) s) ≡ sv.text s
  text-add sid ids s = sv.text-sadd _ _ _ _ ∙ text-second r cs sv codec ic pooled s

  add-Valid :
      (sid : Bytes) (ids : List Bytes) (s : r.State)
      → is_empty ids ≡ false
      → Valid r cs sv codec ic pooled s
      → Valid r cs sv codec ic pooled (cache_expired_sip_item_keys_set r sid ids s)
  add-Valid sid ids s e v = subst (Valid r cs sv codec ic pooled) (sym (add-back sid ids s e v)) (
      back-Valid r cs sv codec ic pooled (sadd sid ids) s refl v
        (λ k. ap (λ f. f 1 k) (text-add sid ids s) ∙ v.no_text k))

  item-add :
      (sid : Bytes) (ids : List Bytes) (s : r.State) (k : Bytes)
      → is_empty ids ≡ false
      → Valid r cs sv codec ic pooled s
      → item r cs sv codec ic pooled (cache_expired_sip_item_keys_set r sid ids s) k
        ≡ item r cs sv codec ic pooled s k
  item-add sid ids s k e v =
      ap (λ x. item_at r codec pooled k (sv.text x 0 k)) (add-back sid ids s e v)
      ∙ ap (λ f. item_at r codec pooled k (f 0 k))
          (text-back r cs sv codec ic pooled (sadd sid ids) s ∙ text-add sid ids s)

  abbrev pub in_set : r.State → Bytes → Bytes → Bool
  in_set s = sv.in_set s 1

  in_set-add :
      (sid : Bytes) (ids : List Bytes) (s : r.State) (j k : Bytes)
      → is_empty ids ≡ false
      → Valid r cs sv codec ic pooled s
      → in_set (cache_expired_sip_item_keys_set r sid ids s) j k
        ≡ ((equal sid j && member k ids) || in_set s j k)
  in_set-add sid ids s j k e v =
      ap (λ x. sv.in_set x 1 j k) (add-back sid ids s e v)
      ∙ ap (λ f. f 1 j k)
          (sv.in_set-close _ _
            ∙ sv.in_set-select _ _ (there r cs sv codec ic pooled (sadd sid ids) s))
      ∙ sv.in_set-sadd (conn r cs sv codec ic pooled s) sid ids
          (on_second r cs sv codec ic pooled s) 1 j k e
          (no_text-second r cs sv codec ic pooled s sid v)
      ∙ rw
          (
            selected-second r cs sv codec ic pooled s,
            sv.in_set-select (conn r cs sv codec ic pooled s) 1 (taken r cs sv codec ic pooled s),
            sv.in_set-take_conn s,
          )
          refl

  members :
      (sid : Bytes) (s : r.State)
      → Valid r cs sv codec ic pooled s
      → (mem : List Bytes) × (((redis_dao r codec pooled).get_expired_sip_item_keys_set_members sid
            s).0
          ≡ some mem)
        × AreDistinct mem
        × ((k : Bytes) → member k mem ≡ in_set s sid k)
  members sid s v =
      let (mem, e, d, h) = members_lem r cs sv codec ic pooled sid s v in
      (mem, ap (λ x. members_or_error x.0) e, d, h)

  behind_members :
      (sid : Bytes) (s : r.State)
      → Valid r cs sv codec ic pooled s
      → ((redis_dao r codec pooled).get_expired_sip_item_keys_set_members sid s).1
        ≡ back r cs sv codec ic pooled (smembers sid) s
  behind_members sid s v =
      let (mem, e, d, h) = members_lem r cs sv codec ic pooled sid s v in ap (λ x. x.1) e

  abbrev pub redis_view : View (redis_dao r codec pooled)
  redis_view = record {
    Valid = Valid r cs sv codec ic pooled;
    Fits = ic.Fits;
    item = item r cs sv codec ic pooled;
    in_set = in_set;
  }

  -- On a server that is up and has no connection on another database, with a codec that restores
  -- what it encodes, the operations of dao/redis_sipitem.go keep the promises of the cache: an item
  -- that is cached is found under its Call-ID, one that is deleted is not, the keys that are added
  -- to a set are members of it, its members are what is fetched, the operations on sets leave the
  -- items as they are, and each operation leaves the cache valid.
  pub redis_dao-IsStore : IsStore (redis_dao r codec pooled) redis_view
  redis_dao-IsStore = record {
    cache-Valid = cache-Valid r cs sv codec ic pooled;
    item-cache = item-cache r cs sv codec ic pooled;
    get_lem = get_lem r cs sv codec ic pooled;
    get-Valid = λ ids s e v. get-Valid r cs sv codec ic pooled ids s v;
    item-get = λ ids s k e v. item-get r cs sv codec ic pooled ids s k;
    del-Valid = del-Valid r cs sv codec ic pooled;
    item-del = item-del r cs sv codec ic pooled;
    add-Valid = add-Valid;
    item-add = item-add;
    in_set-add = in_set-add;
    members_lem = members;
    members-Valid = λ sid s v.
        subst (Valid r cs sv codec ic pooled) (sym (behind_members sid s v))
          (members-Valid r cs sv codec ic pooled sid s v);
    item-members = λ sid s k v.
        ap (λ x. item r cs sv codec ic pooled x k) (behind_members sid s v)
        ∙ item-members r cs sv codec ic pooled sid s k;
    del_sets-Valid = del_sets-Valid r cs sv codec ic pooled;
    item-del_sets = λ sids s k e v. item-del_sets r cs sv codec ic pooled sids s k e;
  }
