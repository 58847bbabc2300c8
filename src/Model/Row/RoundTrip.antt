-- ===== src/Model/Row/RoundTrip.antt =====
-- A row of seven fields is split into them.
use cdrrs.Base.{
  ℕ, ◌-◌, ◌≡◌, refl, ap, false, List, [], ◌∷◌, ◌++◌, none, some, is_empty, codes, length,
  length-append, take, take-length, Bytes, arith,
}
use cdrrs.Bytes.{has_prefix, cut, cons_fst, split_n, split as split_all, join, replace_all}
use cdrrs.Bytes.Split.{Without, AllWithout, cut-append, split-join}
use cdrrs.Model.Row.{
  delimiter, old_line_break, new_line_break, old_double_quotes, new_double_quotes, pretreatment,
  split,
}

pub record Row : Type 0 where
  pub event_time : Bytes
  pub event_id : Bytes
  pub saddr_v4 : Bytes
  pub sport : Bytes
  pub daddr_v4 : Bytes
  pub dport : Bytes
  pub param_content : Bytes

-- The fields between double quotes, with "," between them.
abbrev pub print_row : Row → Bytes
print_row r =
    (b'"' ∷ r.event_time)
    ++ (delimiter
        ++ (r.event_id
            ++ (delimiter
                ++ (r.saddr_v4
                    ++ (delimiter
                        ++ (r.sport
                            ++ (delimiter
                                ++ (r.daddr_v4
                                    ++ (delimiter
                                        ++ (r.dport
                                            ++ (delimiter
                                                ++ (r.param_content ++ codes "\""))))))))))))

-- The fields in front of the content hold no double quote, the first no comma, and those between
-- the first and the last are not empty. The content is free.
pub record IsRow (r : Row) : Type 0 where
  pub time_is : Without b'"' r.event_time
  pub time_no_comma : Without b',' r.event_time
  pub id_is : Without b'"' r.event_id
  pub saddr_is : Without b'"' r.saddr_v4
  pub sport_is : Without b'"' r.sport
  pub daddr_is : Without b'"' r.daddr_v4
  pub dport_is : Without b'"' r.dport
  pub id_any : is_empty r.event_id ≡ false
  pub saddr_any : is_empty r.saddr_v4 ≡ false
  pub sport_any : is_empty r.sport ≡ false
  pub daddr_any : is_empty r.daddr_v4 ≡ false
  pub dport_any : is_empty r.dport ≡ false

-- The quote in front of the first field starts no separator.
cut_first :
    (time b : Bytes)
    → Without b'"' time
    → Without b',' time
    → cut delimiter ((b'"' ∷ time) ++ (delimiter ++ b)) ≡ some (b'"' ∷ time, b)
unfolding cut has_prefix
cut_first [] b h k = ap (cons_fst b'"') (cut-append b'"' (codes ",\"") [] b tt)
cut_first (c ∷ time) b h (kc, k) =
    rw kc (ap (cons_fst b'"') (cut-append b'"' (codes ",\"") (c ∷ time) b h))

not_empty_end : (g : Bytes) → is_empty (g ++ codes "\"") ≡ false
not_empty_end [] = refl
not_empty_end (c ∷ g) = refl

drop_last : (g : Bytes) → take (length (g ++ codes "\"") - 1) (g ++ codes "\"") ≡ g
drop_last g =
    let e : length (g ++ codes "\"") - 1 ≡ length g = omega (arith, length-append g (codes "\"")) in
    rw e (take-length g (codes "\""))

-- The seven parts of a row, before their quotes are stripped.
parts : Row → List Bytes
parts r =
    (b'"' ∷ r.event_time)
    ∷ r.event_id
    ∷ r.saddr_v4
    ∷ r.sport
    ∷ r.daddr_v4
    ∷ r.dport
    ∷ (r.param_content ++ codes "\"")
    ∷ []

cut_field : (a b : Bytes) → Without b'"' a → cut delimiter (a ++ (delimiter ++ b)) ≡ some (a, b)
cut_field a b h = cut-append b'"' (codes ",\"") a b h

split_n-print_row : (r : Row) → IsRow r → split_n 7 delimiter (print_row r) ≡ parts r
unfolding split_n parts
split_n-print_row r v =
    rw (cut_first r.event_time _ v.time_is v.time_no_comma, split_n)
      (rw (cut_field r.event_id _ v.id_is, split_n)
        (rw (cut_field r.saddr_v4 _ v.saddr_is, split_n)
          (rw (cut_field r.sport _ v.sport_is, split_n)
            (rw (cut_field r.daddr_v4 _ v.daddr_is, split_n)
              (rw (cut_field r.dport _ v.dport_is, split_n) refl)))))

-- A row is split into its seven fields: the quotes around the row and the separators are gone, and
-- a separator inside the content stays where it is.
pub split-print_row :
    (r : Row)
    → IsRow r
    → split (print_row r)
      ≡ r.event_time ∷ r.event_id ∷ r.saddr_v4 ∷ r.sport ∷ r.daddr_v4 ∷ r.dport ∷ r.param_content
        ∷ []
unfolding split parts
split-print_row r v = rw (split_n-print_row r v) (
    rw (v.id_any, v.saddr_any, v.sport_any, v.daddr_any, v.dport_any, not_empty_end r.param_content)
      (rw (drop_last r.param_content) refl))

-- Replacing the separator of lines that do not hold its first byte.
replace_all-join :
    (t : ℕ) (ts new s : Bytes) (ss : List Bytes)
    → AllWithout t (s ∷ ss)
    → replace_all (join (t ∷ ts) (s ∷ ss)) (t ∷ ts) new ≡ join new (s ∷ ss)
unfolding replace_all
replace_all-join t ts new s ss h = ap (join new) (split-join t ts s ss h)

replace_all-none : (old new s : Bytes) → cut old s ≡ none → replace_all s old new ≡ s
unfolding replace_all split_all split_n join
replace_all-none old new [] h = refl
replace_all-none old new (c ∷ s) h = rw (h, split_n) refl

-- A line of the data file in which the line breaks of a text with no backslash are written as
-- \0D\0A: it is treated to the text with its line breaks, if no two double quotes meet there.
pub pretreatment-join :
    (s : Bytes) (ss : List Bytes)
    → AllWithout b'\\' (s ∷ ss)
    → cut old_double_quotes (join new_line_break (s ∷ ss)) ≡ none
    → pretreatment (join old_line_break (s ∷ ss)) ≡ join new_line_break (s ∷ ss)
unfolding pretreatment
pretreatment-join s ss h q =
    rw (replace_all-join b'\\' (codes "0D\\0A") new_line_break s ss h)
      (replace_all-none old_double_quotes new_double_quotes (join new_line_break (s ∷ ss)) q)
