-- ===== src/Service/Account/Fates.antt =====
-- The records of a push and of a time-out are those of the fates.
use cdrrs.Base.{
  ℕ, ◌≡◌, refl, sym, ap, ◌∙◌, Bool, true, false, List, [], ◌∷◌, ◌++◌, append-nil, append_assoc,
  some, equal_iff, equal_refl, Option-cases, inl, inr, Bytes, arith,
}
use cdrrs.Model.Item.{SipCache}
use cdrrs.Model.Cdr.{VoipCdr, new_expired_cdr}
use cdrrs.Service.Todo.{Todo, lookup, sip_item_keys}
use cdrrs.Service.Dao.{Dao}
use cdrrs.Service.Dao.Store.{Distinct}
use cdrrs.Service.Synth.{Env, collect}
use cdrrs.Service.Synth.Pairs.{paired, paired-nil}
use cdrrs.Service.Synth.Matched.{matched_cdrs}
use cdrrs.Service.Loop.{expire_items}
use cdrrs.Service.Account.{
  Pending, Fate, all_cdrs, meeting, fates_of_push, fates_of_expiry, cdrs_of,
}

pub all_cdrs-append : (xs ys : List Fate) → all_cdrs (xs ++ ys) ≡ all_cdrs xs ++ all_cdrs ys
unfolding all_cdrs
all_cdrs-append [] ys = refl
all_cdrs-append (f ∷ xs) ys =
    ap (λ l. cdrs_of f ++ l) (all_cdrs-append xs ys)
    ∙ sym (append_assoc (cdrs_of f) (all_cdrs xs) (all_cdrs ys))

module _ (env : Env) where
  pub cdrs-meeting :
      (k : Bytes) (u v : SipCache) → all_cdrs (meeting k (paired env u v) ∷ []) ≡ (paired env u v).1
  unfolding all_cdrs
  cdrs-meeting k u v = go (paired env u v) (paired-nil env u v)
    where
      go : (r : Bool × List VoipCdr) → (r.0 ≡ false → r.1 ≡ []) → cdrs_of (meeting k r) ++ [] ≡ r.1
      go (true, cdrs) h = append-nil cdrs
      go (false, cdrs) h = sym (h refl)

  -- The records of a push are those of the fates of the keys.
  pub cdrs-fates_of_push :
      (m : Todo) (p : Pending)
      → Distinct m
      → ((k : Bytes) (v : SipCache) → lookup k m ≡ some v → p.waiting k ≡ some v)
      → matched_cdrs env p.stored m ≡ all_cdrs (fates_of_push env (sip_item_keys m) p)
  unfolding matched_cdrs fates_of_push sip_item_keys all_cdrs lookup
  cdrs-fates_of_push [] p d h = refl
  cdrs-fates_of_push ((k, v) ∷ m) p (n, d) h =
      let rest = cdrs-fates_of_push m p d (λ j u e. h j u (ground (arith, e, n, equal_iff k j))) in
      let at : p.waiting k ≡ some v = h k v (ground (arith, equal_refl k)) in
      elim (Option-cases (p.stored k)) [
        | inl e ↦ rw (e, matched_cdrs, fates_of_push, at) rest
        | inr (u, e) ↦
            rw (e, matched_cdrs, fates_of_push, at)
              (ap (λ l. l ++ matched_cdrs env p.stored m)
                  (sym (cdrs-meeting k v u) ∙ append-nil (cdrs_of (meeting k (paired env v u))))
                ∙ ap (λ l. cdrs_of (meeting k (paired env v u)) ++ l) rest)
      ]

  pub cdrs-fates_of_expiry :
      (dao : Dao) (max_cache_size push_period : ℕ) (ks : List Bytes) (p : Pending)
      → expire_items dao env max_cache_size push_period ks p.stored
        ≡ all_cdrs (fates_of_expiry env ks p)
  unfolding expire_items fates_of_expiry all_cdrs
  cdrs-fates_of_expiry dao max_cache_size push_period [] p = refl
  cdrs-fates_of_expiry dao max_cache_size push_period (k ∷ ks) p =
      let rest = cdrs-fates_of_expiry dao max_cache_size push_period ks p in
      elim (Option-cases (p.stored k)) [
        | inl e ↦ rw (e, expire_items, fates_of_expiry) rest
        | inr (v, e) ↦
            rw (e, expire_items, fates_of_expiry)
              (ap (λ l. collect (new_expired_cdr env.parse_time env.positions env.pooled k v) ++ l)
                rest)
      ]
