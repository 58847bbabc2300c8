-- ===== src/Sip/StartLine/Request.antt =====
-- Request lines written out and read back.
use cdrrs.Base.{
  ℕ, ◌+◌, ◌≤◌, ◌≡◌, refl, ◌∙◌, true, false, ◌&&◌, ◌||◌, [], ◌∷◌, ◌++◌, ◌==◌, leb, equal, All, codes,
  length, Bytes, arith,
}
use cdrrs.Sip.Fsm.{
  field_null, field_base, field_method, field_user, field_host, field_port, field_usertype, move,
}
use cdrrs.Sip.Fsm.Laws.{look_in, scan_all-nil, scan_all-append, scan_all-until, parse_line-scan_all}
use cdrrs.Sip.Progress.{step_req-Progress}
use cdrrs.Sip.RequestLine.{SipReq, step_req, clear_req, parse_sip_req}
use cdrrs.Sip.StartLine.{scan, req_next, req_method}

-- A request line: "method sip:user@host:port;user=type SIP/2.0".
pub record RequestUri : Type 0 where
  pub method : Bytes
  pub user : Bytes
  pub host : Bytes
  pub port : Bytes
  pub user_type : Bytes

abbrev pub print_request : RequestUri → Bytes
print_request r =
    r.method
    ++ (codes " sip:"
        ++ (r.user
            ++ (b'@'
                ∷ (r.host
                    ++ (b':'
                        ∷ (r.port ++ (codes ";user=" ++ (r.user_type ++ codes " SIP/2.0"))))))))

-- The method starts with a letter from A to S, has at most ten bytes and is not "SIP/2.0", and no
-- part holds a byte that ends it.
pub record IsRequest (r : RequestUri) : Type 0 where
  pub first : Bytes
  pub starts : ℕ
  pub method_is : r.method ≡ starts ∷ first
  pub in_range : (leb b'A' starts && leb starts b'S') ≡ true
  pub short : length r.method ≤ 10
  pub not_status : equal r.method (codes "SIP/2.0") ≡ false
  pub no_space : All (λ c. (c == b' ') ≡ false) r.method
  pub user_is : All (λ c. (c == b':' || c == b';' || c == b'>' || c == b'@') ≡ false) r.user
  pub host_is : All (λ c. (c == b':' || c == b';' || c == b'>' || c == b' ') ≡ false) r.host
  pub port_is : All (λ c. (c == b';' || c == b'>' || c == b' ') ≡ false) r.port
  pub type_is : All (λ c. (c == b';' || c == b'>' || c == b' ') ≡ false) r.user_type

-- Behind the method, at whatever position it ends.
method_end :
    (m : Bytes) (p : ℕ) (rest : Bytes) (o : SipReq)
    → equal m (codes "SIP/2.0") ≡ false
    → scan p (codes " sip:" ++ rest) field_method (record o { method = m })
      ≡ scan (p + 1 + 4) rest field_user (record o { method = m; uri_type = codes "sip" })
unfolding step_req
method_end m p rest o h =
    req_next 1 p b' ' (codes "sip:" ++ rest) field_method field_base (record o { method = m })
      (record o { method = m }) (rw h refl)
    ∙ req_next 4 (p + 1) b's' (codes "ip:" ++ rest) field_base field_user (record o { method = m })
        _ refl

-- The user is gathered in the host, and moved at '@'.
req_user :
    (u rest : Bytes) (p : ℕ) (o : SipReq)
    → All (λ c. (c == b':' || c == b';' || c == b'>' || c == b'@') ≡ false) u
    → scan p (u ++ b'@' ∷ rest) field_user o
      ≡ scan (p + length u + 1) rest field_host (record o { user = o.host ++ u; host = [] })
unfolding step_req
req_user u rest p o h =
    scan_all-append step_req step_req-Progress _ (λ a. record o { host = a }) field_user
      (λ q c look a k. ground arith) u (b'@' ∷ rest) o.host p h
    ∙ req_next 1 (p + length u) b'@' rest field_user field_host (record o { host = o.host ++ u }) _
        refl

req_host :
    (u rest : Bytes) (p : ℕ) (o : SipReq)
    → All (λ c. (c == b':' || c == b';' || c == b'>' || c == b' ') ≡ false) u
    → scan p (u ++ b':' ∷ rest) field_host o
      ≡ scan (p + length u + 1) rest field_port (record o { host = o.host ++ u })
unfolding step_req
req_host u rest p o =
    scan_all-until step_req step_req-Progress _ (λ a. record o { host = a }) field_host field_port
      b':' (λ q c look a h. ground arith) (λ q look a. refl) u rest o.host p

req_port :
    (u rest : Bytes) (p : ℕ) (o : SipReq)
    → All (λ c. (c == b';' || c == b'>' || c == b' ') ≡ false) u
    → scan p (u ++ b';' ∷ rest) field_port o
      ≡ scan (p + length u + 1) rest field_base (record o { port = o.port ++ u })
unfolding step_req
req_port u rest p o =
    scan_all-until step_req step_req-Progress _ (λ a. record o { port = a }) field_port field_base
      b';' (λ q c look a h. ground arith) (λ q look a. refl) u rest o.port p

req_user_type :
    (u : Bytes) (p : ℕ) (o : SipReq)
    → All (λ c. (c == b';' || c == b'>' || c == b' ') ≡ false) u
    → scan p (u ++ codes " SIP/2.0") field_usertype o
      ≡ scan
          (p + length u + 1)
          (codes "SIP/2.0")
          field_base
          (record o { user_type = o.user_type ++ u })
unfolding step_req
req_user_type u p o =
    scan_all-until step_req step_req-Progress _ (λ a. record o { user_type = a }) field_usertype
      field_base b' ' (λ q c look a h. ground arith) (λ q look a. refl) u (codes "SIP/2.0")
      o.user_type p

-- The version at the end changes nothing.
req_version : (p : ℕ) (o : SipReq) → scan p (codes "SIP/2.0") field_base o ≡ o
unfolding step_req
req_version p o =
    skip p b'S' (codes "IP/2.0") refl
    ∙ skip _ b'I' (codes "P/2.0") refl
    ∙ skip _ b'P' (codes "/2.0") refl
    ∙ skip _ b'/' (codes "2.0") refl
    ∙ skip _ b'2' (codes ".0") refl
    ∙ skip _ b'.' (codes "0") refl
    ∙ skip _ b'0' [] refl
    ∙ scan_all-nil step_req step_req-Progress _ field_base o
  where
    skip :
        (q c : ℕ) (cs : Bytes)
        → step_req field_base q c (look_in (c ∷ cs)) o ≡ move 1 field_base o
        → scan q (c ∷ cs) field_base o ≡ scan (q + 1) cs field_base o
    skip q c cs e = req_next 1 q c cs field_base field_base o o e

null_start :
    (c : ℕ) (cs m rest : Bytes) (o : SipReq)
    → m ≡ c ∷ cs
    → (leb b'A' c && leb c b'S') ≡ true
    → scan 0 (m ++ rest) field_null o ≡ scan 0 (m ++ rest) field_method o
unfolding step_req
null_start c cs m rest o e h =
    rw e (req_next 0 0 c (cs ++ rest) field_null field_method o o (ground arith))

-- A request line of the form "method sip:user@host:port;user=type SIP/2.0" is read back part by part,
-- if its method starts with a letter from A to S, holds no blank, has at most ten bytes and is not
-- "SIP/2.0", and its user, host, port and type hold none of the bytes that end them; the status code
-- stays empty, and the status description is what the output held before.
pub parse_sip_req-print_request :
    (r : RequestUri) (out : SipReq)
    → IsRequest r
    → parse_sip_req (print_request r) out ≡ record {
      method = r.method;
      uri_type = codes "sip";
      status_code = [];
      status_desc = out.status_desc;
      user = r.user;
      host = r.host;
      port = r.port;
      user_type = r.user_type;
      src = print_request r;
    }
unfolding parse_sip_req step_req
parse_sip_req-print_request r out h =
    let v = print_request r in
    let o = clear_req v out in
    parse_line-scan_all step_req step_req-Progress v field_null o
    ∙ null_start h.starts h.first r.method _ o h.method_is h.in_range
    ∙ req_method r.method _ 0 o h.no_space (omega (arith, h.short))
    ∙ method_end r.method _ _ o h.not_status
    ∙ req_user r.user _ _ _ h.user_is
    ∙ req_host r.host _ _ _ h.host_is
    ∙ req_port r.port _ _ _ h.port_is
    ∙ req_next 5 _ b'u' _ field_base field_usertype _ _ refl
    ∙ req_user_type r.user_type _ _ h.type_is
    ∙ req_version _ _
