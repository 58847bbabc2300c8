-- ===== src/Dao/Server/Items.antt =====
-- The items of dao/redis_sipitem.go on a server that is up.
use mathlib.Core.Path.{subst}
use cdrrs.Base.{
  ℕ, ◌≡◌, refl, sym, ap, ◌∙◌, false, List, [], ◌∷◌, Option, none, some, ok, ◌==◌, if◌then◌else◌,
  is_empty, map, Bytes, arith, Option-cases, inl, inr,
}
use cdrrs.Model.Item.{SipCache}
use cdrrs.Service.Todo.{Todo, lookup}
use cdrrs.Service.Todo.Keys.{IsKeyed, lookup-IsKeyed}
use cdrrs.Service.Dao.Store.{member, Distinct}
use cdrrs.Dao.Redis.{Redis, Codec, mset, mget, del}
use cdrrs.Dao.Items.{
  Found, cache_sip_items, get_sip_items, del_sip_items, item_at, fetched, mset_args,
}
use cdrrs.Dao.Filled.{answered}
use cdrrs.Dao.Selected.{Connections, Clean}
use cdrrs.Dao.Server.{latest, Server, IsCodec}
use cdrrs.Dao.Server.Encoded.{
  AllFit, mset_args-any, latest-mset_args, item_at-marshal, fill-map, lookup-AllFit, fetched-map,
}

module _ (r : Redis) (cs : Connections r) (sv : Server r cs) (codec : Codec) (ic : IsCodec codec)
    (pooled : SipCache) where
  -- Every connection is on the first database, and the second one holds no strings.
  pub record Valid (s : r.State) : Type 0 where
    pub clean : Clean r cs s
    pub no_text : (k : Bytes) → sv.text s 1 k ≡ none

  abbrev pub item : r.State → Bytes → Option SipCache
  item s k = item_at r codec pooled k (sv.text s 0 k)

  -- The connection of the pool, and the state behind it.
  abbrev pub conn : r.State → ℕ
  conn s = (r.take_conn s).0

  abbrev pub taken : r.State → r.State
  taken s = (r.take_conn s).1

  pub taken-Valid : (s : r.State) → Valid s → Valid (taken s)
  taken-Valid s v = record {
    clean = λ j. ap (λ f. f j) (cs.selected-take_conn s) ∙ v.clean j;
    no_text = λ k. ap (λ f. f 1 k) (sv.text-take_conn s) ∙ v.no_text k;
  }

  pub close-Valid : (c : ℕ) (s : r.State) → Valid s → Valid (r.close c s)
  close-Valid c s v = record {
    clean = λ j. ground (arith, cs.selected-close c s j, v.clean j);
    no_text = λ k. ap (λ f. f 1 k) (sv.text-close c s) ∙ v.no_text k;
  }

  -- The state behind a flushed MSET.
  abbrev flushed : Todo → r.State → r.State
  flushed m s = (r.flush (conn s) (r.send (conn s) (mset (mset_args r codec m)) (taken s)).1).1

  cache-flushed :
      (m : Todo) (s : r.State) → cache_sip_items r codec m s ≡ r.close (conn s) (flushed m s)
  unfolding cache_sip_items
  cache-flushed m s = ground (arith, sv.failed-send (conn s) (mset_args r codec m) (taken s))

  text-flushed :
      (m : Todo) (s : r.State) (n : ℕ) (k : Bytes)
      → is_empty m ≡ false
      → AllFit r codec ic pooled m
      → Valid s
      → sv.text (flushed m s) n k
        ≡ (if n == 0 then latest (mset_args r codec m) k (sv.text s n k) else sv.text s n k)
  text-flushed m s n k e h v =
      sv.text-mset (conn s) (mset_args r codec m) (taken s) n k
        (mset_args-any r codec ic pooled m e h)
      ∙ rw ((taken-Valid s v).clean (conn s), sv.text-take_conn s) refl

  pub cache-Valid :
      (m : Todo) (s : r.State)
      → is_empty m ≡ false
      → AllFit r codec ic pooled m
      → Valid s
      → Valid (cache_sip_items r codec m s)
  cache-Valid m s e h v = subst Valid (sym (cache-flushed m s)) (
      close-Valid (conn s) (flushed m s) (record {
        clean = λ j.
            ap (λ f. f j) (cs.selected-flush _ _ ∙ cs.selected-send _ _ _)
            ∙ (taken-Valid s v).clean j;
        no_text = λ k. text-flushed m s 1 k e h v ∙ v.no_text k;
      }))

  pub item-cache :
      (m : Todo) (s : r.State) (k : Bytes)
      → is_empty m ≡ false
      → AllFit r codec ic pooled m
      → IsKeyed m
      → Distinct m
      → Valid s
      → item (cache_sip_items r codec m s) k
        ≡ elim (lookup k m) [ none ↦ item s k | some v ↦ some v ]
  item-cache m s k e h keyed d v =
      ap (item_at r codec pooled k) (
        ap (λ x. sv.text x 0 k) (cache-flushed m s)
        ∙ ap (λ f. f 0 k) (sv.text-close (conn s) (flushed m s))
        ∙ text-flushed m s 0 k e h v
        ∙ latest-mset_args r codec ic pooled m k (sv.text s 0 k) h d)
      ∙ elim (Option-cases (lookup k m)) [
        | inl n ↦ rw n refl
        | inr (w, e) ↦ rw e (
            item_at-marshal r codec ic pooled w k (lookup-AllFit r codec ic pooled m k w h e)
              (lookup-IsKeyed k w m keyed e))
      ]

  pub del-Valid :
      (ids : List Bytes) (s : r.State)
      → is_empty ids ≡ false
      → Valid s
      → Valid (del_sip_items r codec ids s)
  unfolding del_sip_items
  del-Valid ids s e v =
      let w = taken-Valid s v in
      close-Valid (conn s) _ (record {
        clean = λ j. ap (λ f. f j) (cs.selected-call (conn s) (del ids) (taken s) refl) ∙ w.clean j;
        no_text = λ k.
            sv.text-del (conn s) ids (taken s) 1 k e
            ∙ rw (w.no_text k) (ground (arith, w.clean (conn s)));
      })

  text-del :
      (ids : List Bytes) (s : r.State) (k : Bytes)
      → is_empty ids ≡ false
      → Valid s
      → sv.text (del_sip_items r codec ids s) 0 k ≡ (if member k ids then none else sv.text s 0 k)
  unfolding del_sip_items
  text-del ids s k e v =
      ap (λ f. f 0 k) (sv.text-close (conn s) _)
      ∙ sv.text-del (conn s) ids (taken s) 0 k e
      ∙ rw ((taken-Valid s v).clean (conn s), sv.text-take_conn s) refl

  pub item-del :
      (ids : List Bytes) (s : r.State) (k : Bytes)
      → is_empty ids ≡ false
      → Valid s
      → item (del_sip_items r codec ids s) k ≡ (if member k ids then none else item s k)
  unfolding item_at
  item-del ids s k e v = ap (item_at r codec pooled k) (text-del ids s k e v) ∙ ground arith

  pub get-Valid :
      (ids : List Bytes) (s : r.State) → Valid s → Valid (get_sip_items r codec pooled ids s).1
  unfolding get_sip_items
  get-Valid ids s v =
      let w = taken-Valid s v in
      close-Valid (conn s) _ (record {
        clean =
            λ j. ap (λ f. f j) (cs.selected-call (conn s) (mget ids) (taken s) refl) ∙ w.clean j;
        no_text = λ k. ap (λ f. f 1 k) (sv.text-mget (conn s) ids (taken s)) ∙ w.no_text k;
      })

  pub item-get :
      (ids : List Bytes) (s : r.State) (k : Bytes)
      → item (get_sip_items r codec pooled ids s).1 k ≡ item s k
  unfolding get_sip_items
  item-get ids s k =
      ap (λ f. item_at r codec pooled k (f 0 k))
        (sv.text-close (conn s) _ ∙ sv.text-mget (conn s) ids (taken s) ∙ sv.text-take_conn s)

  answer-taken :
      (ids : List Bytes) (s : r.State)
      → is_empty ids ≡ false
      → Valid s
      → r.as_byte_slices (r.call (conn s) (mget ids) (taken s)).0
        ≡ ok (map (sv.text (taken s) 0) ids)
  answer-taken ids s e v =
      sv.answer-mget (conn s) ids (taken s) e
      ∙ ap (λ n. ok (map (sv.text (taken s) n) ids)) ((taken-Valid s v).clean (conn s))

  -- MGET answers for each key, and the loop gives each its item.
  pub get_lem :
      (ids : List Bytes) (s : r.State)
      → is_empty ids ≡ false
      → Valid s
      → (found : Found) × (answered (get_sip_items r codec pooled ids s).0 ≡ some found)
        × ((k : Bytes) → found k ≡ (if member k ids then item s k else none))
  unfolding get_sip_items
  get_lem [] s e v = cc
  get_lem (j ∷ ids) s e v =
      let (g, made, h) = fill-map r codec ic pooled (sv.text (taken s) 0) (j ∷ ids) (λ k. none) in
      (
        g,
        ap (λ a. answered (fetched r codec pooled (j ∷ ids) a)) (answer-taken (j ∷ ids) s e v)
            ∙ fetched-map r codec ic pooled (sv.text (taken s) 0) j ids g made,
        λ k. h k ∙ rw (sv.text-take_conn s) refl,
      )
