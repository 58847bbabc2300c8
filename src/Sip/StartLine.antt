-- ===== src/Sip/StartLine.antt =====
-- Status lines written out and read back; the request lines are in the child.
pub mod Request
use cdrrs.Base.{
  ℕ, suc, ◌+◌, ◌≤◌, ◌≡◌, refl, sym, ap, ◌∙◌, Bool, false, ◌||◌, [], ◌∷◌, ◌++◌, append-nil,
  append_assoc, ◌==◌, leb, true, ◌&&◌, equal, drop, All, codes, length, Bytes, arith,
}
use cdrrs.Sip.Fsm.{
  Field, field_null, field_base, field_method, field_user, field_host, field_port, field_usertype,
  field_status, field_statusdesc, move,
}
use cdrrs.Sip.Fsm.Laws.{
  look_in, scan_all, scan_all-nil, scan_all-cons, scan_all-append, scan_all-until,
  parse_line-scan_all,
}
use cdrrs.Sip.Progress.{step_req-Progress}
use cdrrs.Sip.RequestLine.{SipReq, step_req, clear_req, parse_sip_req}

abbrev pub scan : ℕ → Bytes → Field → SipReq → SipReq
scan = scan_all step_req step_req-Progress

pub req_next :
    (k p c : ℕ) (cs : Bytes) (st st' : Field) (o o' : SipReq)
    → step_req st p c (look_in (c ∷ cs)) o ≡ move k st' o'
    → scan p (c ∷ cs) st o ≡ scan (p + k) (drop k (c ∷ cs)) st' o'
req_next k p c cs st st' o o' e = scan_all-cons step_req step_req-Progress p c cs st o e

-- One byte of the method, before the tenth position.
req_method_byte :
    (p c : ℕ) (cs : Bytes) (o : SipReq)
    → (c == b' ') ≡ false
    → p ≤ 9
    → scan p (c ∷ cs) field_method o
      ≡ scan (p + 1) cs field_method (record o { method = o.method ++ c ∷ [] })
unfolding step_req
req_method_byte p c cs o h l =
    req_next 1 p c cs field_method field_method o (record o { method = o.method ++ c ∷ [] })
      (ground arith)

pub req_method :
    (u rest : Bytes) (p : ℕ) (o : SipReq)
    → All (λ c. (c == b' ') ≡ false) u
    → p + length u ≤ 10
    → scan p (u ++ rest) field_method o
      ≡ scan (p + length u) rest field_method (record o { method = o.method ++ u })
req_method [] rest p o h l = let e : p + 0 ≡ p = omega arith in rw (e, append-nil o.method) refl
req_method (c ∷ u) rest p o (hc, hu) l =
    let e : p + 1 + length u ≡ p + suc (length u) = omega arith in
    req_method_byte p c (u ++ rest) o hc (omega arith)
    ∙ req_method u rest (p + 1) (record o { method = o.method ++ c ∷ [] }) hu (omega arith)
    ∙ rw (e, append_assoc o.method (c ∷ []) u) refl

-- The parts of a status line: "SIP/2.0 code desc".
abbrev pub print_status : Bytes → Bytes → Bytes
print_status code desc = codes "SIP/2.0 " ++ (code ++ (b' ' ∷ desc))

status_prefix :
    (rest : Bytes) (o : SipReq)
    → scan 0 (codes "SIP/2.0 " ++ rest) field_null (record o { method = [] })
      ≡ scan 8 rest field_status (record o { method = [] })
unfolding step_req
status_prefix rest o =
    let start = record o { method = [] } in
    req_next 0 0 b'S' _ field_null field_method start start refl
    ∙ req_method (codes "SIP/2.0") (b' ' ∷ rest) 0 start (ground arith) (omega arith)
    ∙ req_next 1 7 b' ' rest field_method field_status _ start refl

req_status :
    (u rest : Bytes) (p : ℕ) (o : SipReq)
    → All (λ c. (c == b';' || c == b'>' || c == b' ') ≡ false) u
    → scan p (u ++ b' ' ∷ rest) field_status o
      ≡ scan
          (p + length u + 1)
          rest
          field_statusdesc
          (record o { status_code = o.status_code ++ u })
unfolding step_req
req_status u rest p o =
    scan_all-until step_req step_req-Progress _ (λ a. record o { status_code = a }) field_status
      field_statusdesc b' ' (λ q c look a h. ground arith) (λ q look a. refl) u rest o.status_code p

req_desc :
    (u : Bytes) (p : ℕ) (o : SipReq)
    → All (λ c. (c == b';' || c == b'>') ≡ false) u
    → scan p u field_statusdesc o ≡ record o { status_desc = o.status_desc ++ u }
unfolding step_req
req_desc u p o h =
    ap (λ v. scan p v field_statusdesc o) (sym (append-nil u))
    ∙ scan_all-append step_req step_req-Progress _ (λ a. record o { status_desc = a })
        field_statusdesc (λ q c look a k. ground arith) u [] o.status_desc p h
    ∙ scan_all-nil step_req step_req-Progress (p + length u) field_statusdesc
        (record o { status_desc = o.status_desc ++ u })

-- A status line, whose code and description hold no byte that ends them, is read back as the code
-- and the description; the method stays empty. The description is added to the one that the output
-- held before, which is not cleared.
pub parse_sip_req-print_status :
    (code desc : Bytes) (out : SipReq)
    → All (λ c. (c == b';' || c == b'>' || c == b' ') ≡ false) code
    → All (λ c. (c == b';' || c == b'>') ≡ false) desc
    → parse_sip_req (print_status code desc) out ≡ record {
      method = [];
      uri_type = [];
      status_code = code;
      status_desc = out.status_desc ++ desc;
      user = [];
      host = [];
      port = [];
      user_type = [];
      src = print_status code desc;
    }
unfolding parse_sip_req step_req
parse_sip_req-print_status code desc out hc hd =
    let v = print_status code desc in
    let o = clear_req v out in
    parse_line-scan_all step_req step_req-Progress v field_null o
    ∙ status_prefix _ o
    ∙ req_status code desc 8 o hc
    ∙ req_desc desc _ _ hd
