-- ===== src/Sip/Address.antt =====
-- Addresses as the From and To headers carry them, written out and read back.
pub mod From
use cdrrs.Base.{
  ℕ, ◌+◌, ◌≡◌, refl, sym, ap, ◌∙◌, Bool, true, false, ◌||◌, inl, inr, List, [], ◌∷◌, ◌++◌,
  append-nil, append_assoc, ◌==◌, if◌then◌else◌, is_empty, drop, All, codes, length, Bytes, arith,
}
use cdrrs.Sip.Fsm.{
  Field, field_base, field_nameq, field_user, field_host, field_port, field_tag, move,
}
use cdrrs.Sip.Fsm.Laws.{
  look_in, scan_all, scan_all-nil, scan_all-cons, scan_all-append, scan_all-until,
  parse_line-scan_all,
}
use cdrrs.Sip.Progress.{step_to-Progress}
use cdrrs.Sip.To.{SipTo, step_to, clear_to, parse_sip_to}

-- `"name" <sip:user@host:port>;tag=tag`.
pub record Address : Type 0 where
  pub name : Bytes
  pub user : Bytes
  pub host : Bytes
  pub port : Bytes
  pub tag : Bytes

abbrev pub print_address : Address → Bytes
print_address a =
    b'"'
    ∷ (a.name
        ++ (b'"'
            ∷ (codes " <sip:"
                ++ (a.user
                    ++ (b'@'
                        ∷ (a.host ++ (b':' ∷ (a.port ++ (b'>' ∷ (codes ";tag=" ++ a.tag))))))))))

-- No part holds a byte that ends it.
pub record IsPrintable (a : Address) : Type 0 where
  pub name_is : All (λ c. (c == b'"') ≡ false) a.name
  pub user_is : All (λ c. (c == b'@') ≡ false) a.user
  pub host_is : All (λ c. (c == b':' || c == b';' || c == b'>') ≡ false) a.host
  pub port_is : All (λ c. (c == b';' || c == b'>' || c == b' ') ≡ false) a.port
  pub tag_is : All (λ c. (c == b';' || c == b'>' || c == b' ') ≡ false) a.tag

abbrev scan : ℕ → Bytes → Field → SipTo → SipTo
scan = scan_all step_to step_to-Progress

to_name :
    (u rest : Bytes) (p : ℕ) (o : SipTo)
    → All (λ c. (c == b'"') ≡ false) u
    → scan p (u ++ b'"' ∷ rest) field_nameq o
      ≡ scan (p + length u + 1) rest field_base (record o { name = o.name ++ u })
unfolding step_to
to_name u rest p o =
    scan_all-until step_to step_to-Progress _ (λ a. record o { name = a }) field_nameq field_base
      b'"' (λ q c look a h. rw h) (λ q look a. refl) u rest o.name p

to_user :
    (u rest : Bytes) (p : ℕ) (o : SipTo)
    → All (λ c. (c == b'@') ≡ false) u
    → scan p (u ++ b'@' ∷ rest) field_user o
      ≡ scan (p + length u + 1) rest field_host (record o { user = o.user ++ u })
unfolding step_to
to_user u rest p o =
    scan_all-until step_to step_to-Progress _ (λ a. record o { user = a }) field_user field_host
      b'@' (λ q c look a h. rw h) (λ q look a. refl) u rest o.user p

to_host :
    (u rest : Bytes) (p : ℕ) (o : SipTo)
    → All (λ c. (c == b':' || c == b';' || c == b'>') ≡ false) u
    → scan p (u ++ b':' ∷ rest) field_host o
      ≡ scan (p + length u + 1) rest field_port (record o { host = o.host ++ u })
unfolding step_to
to_host u rest p o =
    scan_all-until step_to step_to-Progress _ (λ a. record o { host = a }) field_host field_port
      b':' (λ q c look a h. ground arith) (λ q look a. refl) u rest o.host p

to_port :
    (u rest : Bytes) (p : ℕ) (o : SipTo)
    → All (λ c. (c == b';' || c == b'>' || c == b' ') ≡ false) u
    → scan p (u ++ b'>' ∷ rest) field_port o
      ≡ scan (p + length u + 1) rest field_base (record o { port = o.port ++ u })
unfolding step_to
to_port u rest p o =
    scan_all-until step_to step_to-Progress _ (λ a. record o { port = a }) field_port field_base
      b'>' (λ q c look a h. ground arith) (λ q look a. refl) u rest o.port p

to_tag :
    (u : Bytes) (p : ℕ) (o : SipTo)
    → All (λ c. (c == b';' || c == b'>' || c == b' ') ≡ false) u
    → scan p u field_tag o ≡ record o { tag = o.tag ++ u }
unfolding step_to
to_tag u p o h =
    ap (λ v. scan p v field_tag o) (sym (append-nil u))
    ∙ scan_all-append step_to step_to-Progress _ (λ a. record o { tag = a }) field_tag
        (λ q c look a k. ground arith) u [] o.tag p h
    ∙ scan_all-nil step_to step_to-Progress (p + length u) field_tag (record o { tag = o.tag ++ u })

to_next :
    (k p c : ℕ) (cs : Bytes) (st st' : Field) (o o' : SipTo)
    → step_to st p c (look_in (c ∷ cs)) o ≡ move k st' o'
    → scan p (c ∷ cs) st o ≡ scan (p + k) (drop k (c ∷ cs)) st' o'
to_next k p c cs st st' o o' e = scan_all-cons step_to step_to-Progress p c cs st o e

-- " <sip:" in front of the user.
to_open :
    (rest : Bytes) (p : ℕ) (o : SipTo)
    → o.uri_type ≡ []
    → scan p (codes " <sip:" ++ rest) field_base o
      ≡ scan (p + 1 + 1 + 4) rest field_user (record o { uri_type = codes "sip" })
unfolding step_to
to_open rest p o e =
    to_next 1 p b' ' (codes "<sip:" ++ rest) field_base field_base o o (rw e)
    ∙ to_next 1 (p + 1) b'<' (codes "sip:" ++ rest) field_base field_base o o (rw e)
    ∙ to_next 4 (p + 1 + 1) b's' (codes "ip:" ++ rest) field_base field_user o _ refl

-- ";tag=" behind the address.
to_close :
    (rest : Bytes) (p : ℕ) (o : SipTo)
    → scan p (codes ";tag=" ++ rest) field_base o ≡ scan (p + 1 + 4) rest field_tag o
unfolding step_to
to_close rest p o =
    to_next 1 p b';' (codes "tag=" ++ rest) field_base field_base o o refl
    ∙ to_next 4 (p + 1) b't' (codes "ag=" ++ rest) field_base field_tag o o refl

-- A To header that carries a printable address is read back part by part, whatever the output held.
pub parse_sip_to-print_address :
    (a : Address) (out : SipTo)
    → IsPrintable a
    → parse_sip_to (print_address a) out ≡ record {
      uri_type = codes "sip";
      name = a.name;
      user = a.user;
      host = a.host;
      port = a.port;
      tag = a.tag;
      user_type = [];
      src = print_address a;
    }
unfolding parse_sip_to step_to
parse_sip_to-print_address a out h =
    let v = print_address a in
    let o = clear_to v out in
    parse_line-scan_all step_to step_to-Progress v field_base o
    ∙ to_next 1 0 b'"' _ field_base field_nameq o o refl
    ∙ to_name a.name _ _ _ h.name_is
    ∙ to_open _ _ _ refl
    ∙ to_user a.user _ _ _ h.user_is
    ∙ to_host a.host _ _ _ h.host_is
    ∙ to_port a.port _ _ _ h.port_is
    ∙ to_close _ _ _
    ∙ to_tag a.tag _ _ h.tag_is
