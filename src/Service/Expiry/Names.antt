-- ===== src/Service/Expiry/Names.antt =====
-- The name of a set of keys tells when it was made.
use cdrrs.Base.{
  ℕ, ◌*◌, ◌/◌, ◌≡◌, refl, sym, ap, ◌∙◌, [], ◌∷◌, ◌++◌, some, length, take, drop, length-append,
  take-length, drop-length, Bytes, arith,
}
use cdrrs.Bytes.Split.{Without}
use cdrrs.Service.Expiry.{Zone, drop_point, sip_item_keys_set_id, parse_time_from_set_id}

-- The layout: fourteen digits, a point and the milliseconds. A moment is read back to the
-- millisecond, unless its year has not four digits or the clock shows it twice.
pub record IsZone (zone : Zone) : Type 1 where
  pub Readable : ℕ → Type 0
  pub seconds : ℕ → Bytes
  pub milliseconds : ℕ → Bytes
  pub format_is : (t : ℕ) → Readable t → zone.format t ≡ seconds t ++ (b'.' ∷ milliseconds t)
  pub no_point : (t : ℕ) → Readable t → Without b'.' (seconds t)
  pub length-seconds : (t : ℕ) → Readable t → length (seconds t) ≡ 14
  pub length-milliseconds : (t : ℕ) → Readable t → length (milliseconds t) ≡ 3
  pub parse-format :
      (t : ℕ) → Readable t → zone.parse_in_location (zone.format t) ≡ some (t / 1000000 * 1000000)

drop_point-append : (xs ys : Bytes) → Without b'.' xs → drop_point (xs ++ (b'.' ∷ ys)) ≡ xs ++ ys
unfolding drop_point
drop_point-append [] ys h = refl
drop_point-append (c ∷ xs) ys (h, hs) = rw h (ap (◌∷◌ c) (drop_point-append xs ys hs))

-- A name of seconds and milliseconds is given its point again.
parse_time_from_set_id-append :
    (zone : Zone) (xs ys : Bytes)
    → length xs ≡ 14
    → length ys ≡ 3
    → parse_time_from_set_id zone (xs ++ ys) ≡ zone.parse_in_location (xs ++ (b'.' ∷ ys))
unfolding parse_time_from_set_id
parse_time_from_set_id-append zone xs ys h k =
    let whole : length (xs ++ ys) ≡ 17 = length-append xs ys ∙ omega arith in
    let front : take 14 (xs ++ ys) ≡ xs = rw (sym h) (take-length xs ys) in
    let back : drop 14 (xs ++ ys) ≡ ys = rw (sym h) (drop-length xs ys) in
    rw whole (rw (front, back) refl)

module _ (zone : Zone) (is : IsZone zone) where
  -- The name that a set of keys is given at a moment that can be read back is read as that moment,
  -- to the millisecond.
  pub parse_time_from_set_id-sip_item_keys_set_id :
      (t : ℕ)
      → is.Readable t
      → parse_time_from_set_id zone (sip_item_keys_set_id zone t) ≡ some (t / 1000000 * 1000000)
  unfolding sip_item_keys_set_id
  parse_time_from_set_id-sip_item_keys_set_id t h =
      let xs = is.seconds t in
      let ys = is.milliseconds t in
      ap (λ s. parse_time_from_set_id zone (drop_point s)) (is.format_is t h)
      ∙ ap (parse_time_from_set_id zone) (drop_point-append xs ys (is.no_point t h))
      ∙ parse_time_from_set_id-append zone xs ys (is.length-seconds t h)
          (is.length-milliseconds t h)
      ∙ ap zone.parse_in_location (sym (is.format_is t h))
      ∙ is.parse-format t h
