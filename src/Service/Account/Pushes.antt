-- ===== src/Service/Account/Pushes.antt =====
-- `pushRedis` and `handleExpiredKeySet` of service/synth.go, over a cache that keeps its promises,
-- as moves of the account.
use cdrrs.Base.{
  ℕ, ◌≡◌, refl, sym, ap, ◌∙◌, true, List, [], ◌∷◌, ◌++◌, append-nil, append_assoc, Option, none,
  some, ok, is_empty, Bool-cases, inl, inr, Bytes,
}
use mathlib.Core.Path.{subst}
use cdrrs.Model.Item.{SipCache}
use cdrrs.Service.Todo.{Todo, lookup, sip_item_keys}
use cdrrs.Service.Dao.{Dao}
use cdrrs.Service.Dao.Store.{View, IsStore}
use cdrrs.Service.Synth.{Env}
use cdrrs.Service.Synth.Kept.{member-sip_item_keys}
use cdrrs.Service.Loop.{State, push_redis, handle_expired_key_set}
use cdrrs.Service.Loop.Pushed.{IsPushable, pushed_item, push_redis-item}
use cdrrs.Service.Loop.Expired.{handle_expired_key_set-IsExpired}
use cdrrs.Service.Account.{
  Pending, Fate, all_cdrs, after_push, fates_of_push, fates_of_expiry, Move, pushes, expires, Moves,
  here, next,
}
use cdrrs.Service.Account.Maps.{AreDistinct-keys}
use cdrrs.Service.Account.Fates.{all_cdrs-append, cdrs-fates_of_push, cdrs-fates_of_expiry}
use cdrrs.Service.Account.Arrivals.{held_by, Accounts, Moves-append}

empty-nil : (m : Todo) → is_empty m ≡ true → m ≡ []
empty-nil [] e = refl
empty-nil (x ∷ m) e = cc

module _ (dao : Dao) (w : View dao) (is : IsStore dao w) (env : Env)
    (max_cache_size push_period : ℕ) where
  open w use {Valid, item, in_set}

  abbrev Acct : State dao → List SipCache → State dao → Type 0
  Acct = Accounts dao w is env max_cache_size push_period

  abbrev kept_by : Todo → dao.Store → Pending
  kept_by = held_by dao w is env max_cache_size push_period

  pub Accounts_none : (s : State dao) → Acct s [] s
  unfolding all_cdrs
  Accounts_none s = record { fates = []; cdrs_are = sym (append-nil s.cdrs); moves = here }

  pub Accounts_one :
      (s t : State dao) (items : List SipCache) (fates : List Fate)
      → t.cdrs ≡ s.cdrs ++ all_cdrs fates
      → Move env (kept_by s.todo s.store) items fates (kept_by t.todo t.store)
      → Acct s items t
  Accounts_one s t items fates e m = record {
    fates = fates;
    cdrs_are = e;
    moves =
        subst (λ l. Moves env (kept_by s.todo s.store) l fates (kept_by t.todo t.store))
          (append-nil items)
          (subst (λ l. Moves env (kept_by s.todo s.store) (items ++ []) l (kept_by t.todo t.store))
            (append-nil fates) (next m here));
  }

  pub Accounts_trans :
      (s t u : State dao) (xs ys : List SipCache) → Acct s xs t → Acct t ys u → Acct s (xs ++ ys) u
  Accounts_trans s t u xs ys a b = record {
    fates = a.fates ++ b.fates;
    cdrs_are =
        b.cdrs_are
        ∙ ap (λ l. l ++ all_cdrs b.fates) a.cdrs_are
        ∙ append_assoc s.cdrs (all_cdrs a.fates) (all_cdrs b.fates)
        ∙ ap (λ l. s.cdrs ++ l) (sym (all_cdrs-append a.fates b.fates));
    moves = Moves-append env a.moves b.moves;
  }

  pushed_lem :
      (v u : Option SipCache)
      → pushed_item dao w is env max_cache_size push_period v u ≡ after_push env v u
  pushed_lem none u = refl
  pushed_lem (some v) none = refl
  pushed_lem (some v) (some u) = refl

  -- A push is a move, or nothing at all when nothing waits.
  pub push_redis-Accounts :
      (sid : Bytes) (s : State dao)
      → IsPushable dao w is env max_cache_size push_period s.todo
      → Valid s.store
      → (t : State dao) × (push_redis dao env max_cache_size push_period sid s ≡ ok t)
        × (t.todo ≡ [])
        × Valid t.store
        × Acct s [] t
  unfolding push_redis lookup
  push_redis-Accounts sid s p v = elim (Bool-cases (is_empty s.todo)) [
    | inl e ↦ (s, rw e refl, empty-nil s.todo e, v, Accounts_none s)
    | inr n ↦
        let (t, r, e, valid, items, cdrs) =
          push_redis-item dao w is env max_cache_size push_period sid s n p v in
        (
          t,
          r,
          e,
          valid,
          Accounts_one s t [] (fates_of_push env (sip_item_keys s.todo) (kept_by s.todo s.store))
              (cdrs
                ∙ ap (λ l. s.cdrs ++ l)
                    (cdrs-fates_of_push env s.todo (kept_by s.todo s.store) p.distinct
                      (λ k x h. h)))
              (pushes (sip_item_keys s.todo) (AreDistinct-keys s.todo p.distinct)
                (λ k. member-sip_item_keys k s.todo) refl refl (λ k. ap (λ m. lookup k m) e)
                (λ k. items k ∙ pushed_lem (lookup k s.todo) (item s.store k))),
        )
  ]

  -- The timer of a set is a move.
  pub expired-Accounts :
      (sid : Bytes) (s : State dao)
      → Valid s.store
      → Acct s [] (handle_expired_key_set dao env max_cache_size push_period sid s)
  expired-Accounts sid s v =
      let x = handle_expired_key_set-IsExpired dao w is env max_cache_size push_period sid s v in
      let t = handle_expired_key_set dao env max_cache_size push_period sid s in
      Accounts_one s t [] (fates_of_expiry env x.mem (kept_by s.todo s.store))
        (x.cdrs_are
          ∙ ap (λ l. s.cdrs ++ l)
              (cdrs-fates_of_expiry env dao max_cache_size push_period x.mem
                (kept_by s.todo s.store)))
        (expires x.mem x.distinct refl refl (λ k. ap (λ m. lookup k m) x.todo_is)
          (λ k. x.items_are k ∙ rw (x.member_mem k) refl))
