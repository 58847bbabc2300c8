-- ===== src/Sip/Transaction.antt =====
-- The CSeq and Via headers written out and read back.
use cdrrs.Base.{
  ℕ, ◌+◌, ◌≡◌, refl, sym, ap, ◌∙◌, false, ◌||◌, [], ◌∷◌, ◌++◌, append-nil, ◌==◌, All, codes, length,
  Bytes, arith, drop,
}
use cdrrs.Sip.Fsm.{
  Field, field_id, field_method, field_base, field_host, field_port, field_branch, move,
}
use cdrrs.Sip.Fsm.Laws.{
  look_in, scan_all, scan_all-nil, scan_all-cons, scan_all-append, scan_all-until,
  parse_line-scan_all,
}
use cdrrs.Sip.Progress.{step_cseq-Progress, step_via-Progress}
use cdrrs.Sip.Cseq.{SipCseq, step_cseq, clear_cseq, parse_sip_cseq}
use cdrrs.Sip.Via.{SipVia, step_via, clear_via, parse_sip_via}

abbrev pub print_cseq : Bytes → Bytes → Bytes
print_cseq id method = id ++ b' ' ∷ method

-- A CSeq header is read back as the number in front of its first space and all that follows it,
-- whatever the output held.
pub parse_sip_cseq-print_cseq :
    (id method : Bytes) (out : SipCseq)
    → All (λ c. (c == b' ') ≡ false) id
    → parse_sip_cseq (print_cseq id method) out
      ≡ record { id = id; method = method; src = print_cseq id method }
unfolding parse_sip_cseq step_cseq
parse_sip_cseq-print_cseq id method out h =
    let v = print_cseq id method in
    let o = clear_cseq v out in
    let o' = record o { id = id } in
    parse_line-scan_all step_cseq step_cseq-Progress v field_id o
    ∙ scan_all-until step_cseq step_cseq-Progress _ (λ a. record o { id = a }) field_id field_method
        b' ' (λ q c look a k. rw k) (λ q look a. refl) id method [] 0 h
    ∙ ap (λ u. scan_all step_cseq step_cseq-Progress (0 + length id + 1) u field_method o')
        (sym (append-nil method))
    ∙ scan_all-append step_cseq step_cseq-Progress (λ c. Unit {0}) (λ a. record o' { method = a })
        field_method (λ q c look a k. refl) method [] [] (0 + length id + 1) (all_unit method)
    ∙ scan_all-nil step_cseq step_cseq-Progress _ field_method _
  where
    all_unit : (u : Bytes) → All (λ c. Unit {0}) u
    all_unit [] = tt
    all_unit (c ∷ u) = (tt, all_unit u)

abbrev pub print_via : Bytes → Bytes → Bytes → Bytes
print_via host port branch =
    codes "SIP/2.0/UDP " ++ (host ++ (b':' ∷ (port ++ (codes ";branch=" ++ branch))))

abbrev scan : ℕ → Bytes → Field → SipVia → SipVia
scan = scan_all step_via step_via-Progress

via_next :
    (k p c : ℕ) (cs : Bytes) (st st' : Field) (o o' : SipVia)
    → step_via st p c (look_in (c ∷ cs)) o ≡ move k st' o'
    → scan p (c ∷ cs) st o ≡ scan (p + k) (drop k (c ∷ cs)) st' o'
via_next k p c cs st st' o o' e = scan_all-cons step_via step_via-Progress p c cs st o e

via_branch :
    (u : Bytes) (p : ℕ) (o : SipVia)
    → All (λ c. (c == b';') ≡ false) u
    → scan p u field_branch o ≡ record o { branch = o.branch ++ u }
unfolding step_via
via_branch u p o h =
    ap (λ v. scan p v field_branch o) (sym (append-nil u))
    ∙ scan_all-append step_via step_via-Progress _ (λ a. record o { branch = a }) field_branch
        (λ q c look a k. rw k) u [] o.branch p h
    ∙ scan_all-nil step_via step_via-Progress _ field_branch _

-- A Via header over UDP is read back as its host, port and branch, whatever the output held.
pub parse_sip_via-print_via :
    (host port branch : Bytes) (out : SipVia)
    → All (λ c. (c == b':' || c == b';' || c == b' ') ≡ false) host
    → All (λ c. (c == b';') ≡ false) port
    → All (λ c. (c == b';') ≡ false) branch
    → parse_sip_via (print_via host port branch) out ≡ record {
      trans = codes "udp";
      host = host;
      port = port;
      branch = branch;
      rport = [];
      maddr = [];
      ttl = [];
      rcvd = [];
      src = print_via host port branch;
    }
unfolding parse_sip_via step_via
parse_sip_via-print_via host port branch out hh hp hb =
    let v = print_via host port branch in
    let o = clear_via v out in
    let o' = record o { trans = codes "udp" } in
    parse_line-scan_all step_via step_via-Progress v field_base o
    ∙ via_next 11 0 b'S' _ field_base field_host o o' refl
    ∙ via_next 1 11 b' ' _ field_host field_host o' o' refl
    ∙ scan_all-until step_via step_via-Progress _ (λ a. record o' { host = a }) field_host
        field_port b':' (λ q c look a h. ground arith) (λ q look a. refl) host _ [] _ hh
    ∙ scan_all-until step_via step_via-Progress _ (λ a. record o' { host = host; port = a })
        field_port field_base b';' (λ q c look a h. rw h) (λ q look a. refl) port _ [] _ hp
    ∙ via_next 7 _ b'b' _ field_base field_branch _ _ refl
    ∙ via_branch branch _ _ hb
