-- ===== src/Dao/Server/Second.antt =====
-- The commands of dao/redis_sipitem.go on the second database of a server that is up.
use cdrrs.Base.{
  ℕ, ◌≡◌, refl, sym, ap, ◌∙◌, false, ◌&&◌, List, none, ◌==◌, if◌then◌else◌, is_empty, Bytes, arith,
}
use mathlib.Core.Path.{subst}
use cdrrs.Model.Item.{SipCache}
use cdrrs.Service.Dao.Store.{member, AreDistinct}
use cdrrs.Dao.Redis.{Redis, Codec, Command, del, smembers, select}
use cdrrs.Dao.Items.{item_at}
use cdrrs.Dao.Sets.{
  select_db, on_sets, del_expired_sip_item_keys_sets, get_expired_sip_item_keys_set_members,
}
use cdrrs.Dao.Selected.{Connections, is_select}
use cdrrs.Dao.Server.{Server, IsCodec}
use cdrrs.Dao.Server.Items.{Valid, item, conn, taken, taken-Valid}

module _ (r : Redis) (cs : Connections r) (sv : Server r cs) (codec : Codec) (ic : IsCodec codec)
    (pooled : SipCache) where
  -- The state behind SELECT 1, behind a command there, and behind SELECT 0 and `Close`.
  abbrev pub on_second : r.State → r.State
  on_second s =
      (r.call (conn r cs sv codec ic pooled s) (select 1) (taken r cs sv codec ic pooled s)).1

  abbrev pub there : Command → r.State → r.State
  there command s = (r.call (conn r cs sv codec ic pooled s) command (on_second s)).1

  abbrev pub back : Command → r.State → r.State
  back command s =
      r.close (conn r cs sv codec ic pooled s)
        (r.call (conn r cs sv codec ic pooled s) (select 0) (there command s)).1

  pub selected-second :
      (s : r.State) → cs.selected (on_second s) (conn r cs sv codec ic pooled s) ≡ 1
  selected-second s =
      cs.selected-select (conn r cs sv codec ic pooled s) 1 (taken r cs sv codec ic pooled s)
        (conn r cs sv codec ic pooled s)
      ∙ rw (sv.failed-select (conn r cs sv codec ic pooled s) 1 (taken r cs sv codec ic pooled s))
          (ground arith)

  pub text-second : (s : r.State) → sv.text (on_second s) ≡ sv.text s
  text-second s = sv.text-select _ _ _ ∙ sv.text-take_conn s

  pub text-back :
      (command : Command) (s : r.State) → sv.text (back command s) ≡ sv.text (there command s)
  text-back command s = sv.text-close _ _ ∙ sv.text-select _ _ _

  pub no_text-second :
      (s : r.State) (k : Bytes)
      → Valid r cs sv codec ic pooled s
      → sv.text (on_second s) (cs.selected (on_second s) (conn r cs sv codec ic pooled s)) k ≡ none
  no_text-second s k v = rw (selected-second s, text-second s) (v.no_text k)

  -- A command that makes no string in the second database leaves the cache valid.
  pub back-Valid :
      (command : Command) (s : r.State)
      → is_select command ≡ false
      → Valid r cs sv codec ic pooled s
      → ((k : Bytes) → sv.text (there command s) 1 k ≡ none)
      → Valid r cs sv codec ic pooled (back command s)
  back-Valid command s e v n = record {
    clean = λ j. ground (
      arith,
      cs.selected-close (conn r cs sv codec ic pooled s)
          (r.call (conn r cs sv codec ic pooled s) (select 0) (there command s)).1 j,
      cs.selected-select (conn r cs sv codec ic pooled s) 0 (there command s) j,
      sv.failed-select (conn r cs sv codec ic pooled s) 0 (there command s),
      ap (λ f. f j) (cs.selected-call (conn r cs sv codec ic pooled s) command (on_second s) e),
      cs.selected-select (conn r cs sv codec ic pooled s) 1 (taken r cs sv codec ic pooled s) j,
      (taken-Valid r cs sv codec ic pooled s v).clean j,
    );
    no_text = λ k. ap (λ f. f 1 k) (text-back command s) ∙ n k;
  }

  pub on_sets-back :
      (command : Command) (s : r.State)
      → r.failed (r.call (conn r cs sv codec ic pooled s) command (on_second s)).0 ≡ false
      → on_sets r command s ≡ back command s
  unfolding on_sets select_db
  on_sets-back command s e = ground (
    arith,
    e,
    sv.failed-select (conn r cs sv codec ic pooled s) 1 (taken r cs sv codec ic pooled s),
  )

  -- SMEMBERS.
  pub members_lem :
      (sid : Bytes) (s : r.State)
      → Valid r cs sv codec ic pooled s
      → (mem : List Bytes) × (get_expired_sip_item_keys_set_members r sid s
          ≡ ((mem, false), back (smembers sid) s))
        × AreDistinct mem
        × ((k : Bytes) → member k mem ≡ sv.in_set s 1 sid k)
  unfolding get_expired_sip_item_keys_set_members select_db
  members_lem sid s v =
      let (mem, e, d, h) =
        sv.answer-smembers (conn r cs sv codec ic pooled s) sid (on_second s)
          (no_text-second s sid v) in
      (
        mem,
        rw
            (
              sv.failed-select (conn r cs sv codec ic pooled s) 1 (taken r cs sv codec ic pooled s),
              e,
            )
            refl,
        d,
        λ k.
            h k
            ∙ rw (selected-second s)
                (ap (λ f. f 1 sid k) (sv.in_set-select _ _ _ ∙ sv.in_set-take_conn s)),
      )

  pub members-Valid :
      (sid : Bytes) (s : r.State)
      → Valid r cs sv codec ic pooled s
      → Valid r cs sv codec ic pooled (back (smembers sid) s)
  members-Valid sid s v =
      back-Valid (smembers sid) s refl v
        (λ k. ap (λ f. f 1 k) (sv.text-smembers _ sid (on_second s) ∙ text-second s) ∙ v.no_text k)

  pub item-members :
      (sid : Bytes) (s : r.State) (k : Bytes)
      → item r cs sv codec ic pooled (back (smembers sid) s) k ≡ item r cs sv codec ic pooled s k
  item-members sid s k =
      ap (λ f. item_at r codec pooled k (f 0 k))
        (text-back (smembers sid) s ∙ sv.text-smembers _ sid (on_second s) ∙ text-second s)

  -- DEL.
  del_sets-back :
      (sids : List Bytes) (s : r.State)
      → is_empty sids ≡ false
      → del_expired_sip_item_keys_sets r sids s ≡ back (del sids) s
  unfolding del_expired_sip_item_keys_sets
  del_sets-back sids s e = on_sets-back (del sids) s (sv.failed-del _ sids _ e)

  text-del_there :
      (sids : List Bytes) (s : r.State) (n : ℕ) (k : Bytes)
      → is_empty sids ≡ false
      → sv.text (there (del sids) s) n k ≡ (if n == 1 && member k sids then none else sv.text s n k)
  text-del_there sids s n k e =
      sv.text-del (conn r cs sv codec ic pooled s) sids (on_second s) n k e
      ∙ rw (selected-second s, text-second s) refl

  pub del_sets-Valid :
      (sids : List Bytes) (s : r.State)
      → is_empty sids ≡ false
      → Valid r cs sv codec ic pooled s
      → Valid r cs sv codec ic pooled (del_expired_sip_item_keys_sets r sids s)
  del_sets-Valid sids s e v = subst (Valid r cs sv codec ic pooled) (sym (del_sets-back sids s e)) (
      back-Valid (del sids) s refl v
        (λ k. text-del_there sids s 1 k e ∙ rw (v.no_text k) (ground arith)))

  pub item-del_sets :
      (sids : List Bytes) (s : r.State) (k : Bytes)
      → is_empty sids ≡ false
      → item r cs sv codec ic pooled (del_expired_sip_item_keys_sets r sids s) k
        ≡ item r cs sv codec ic pooled s k
  item-del_sets sids s k e =
      ap (λ x. item_at r codec pooled k (sv.text x 0 k)) (del_sets-back sids s e)
      ∙ ap (λ t. item_at r codec pooled k t)
          (ap (λ f. f 0 k) (text-back (del sids) s) ∙ text-del_there sids s 0 k e)
