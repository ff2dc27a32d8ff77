-- ===== src/Utils/Addressing/Uris/Printing.antt =====
-- What `parse_radio_uri` makes of a URI that is printed with all its parts.
use aiocflib.Prelude.{
  ℕ, suc, ◌%◌, ◌≤◌, ◌≡◌, ◌≢◌, ◌==◌, refl, sym, ap, ◌∙◌, Bool, true, false, List, [], ◌∷◌, ◌++◌, ok,
  subst, Bytes, All, All-map, IsByte, length, ltb, arith, inl, inr, bytes_eq,
}
use aiocflib.Prelude.Integers.{ℤ, pos, negsuc}
use aiocflib.Crazyflie.Names.{Text}
use aiocflib.Utils.Addressing.{
  CrazyradioDataRate, dr_250kps, dr_1mps, dr_2mps, spelled, data_rate_from_string, data_rate_text,
  text, filled, to_radio_address, one_of,
}
use aiocflib.Utils.Addressing.Numerals.{int_text, decimal, upper_hexlify}
use aiocflib.Utils.Addressing.Digits.{
  All-decimal, first_of_decimal, int_text-parse_int, upper_hexlify-unhexlify, length-upper_hexlify,
  IsUpperHex, All-upper_hexlify,
}
use aiocflib.Utils.Addressing.Uris.{
  split_slash, path_parts, parse_index, parse_channel, parse_data_rate, parse_address, parse_parts,
  channel_of, parse_radio_uri, scheme_separator,
}
use aiocflib.Utils.Addressing.Uris.Splitting.{
  partition-append, split_slash-append, split_slash-last, path_parts-append,
}

not_slash : (c : ℕ) → IsUpperHex c → c ≢ b'/'
not_slash c (inl h) e = omega (arith, h.0, e)
not_slash c (inr h) e = omega (arith, h.0, e)

-- The numbers, the rates and the addresses have no slash.
int_text-no_slash : (n : ℤ) → All (λ c. c ≢ b'/') (int_text n)
unfolding int_text
int_text-no_slash (pos n) = All-map (λ c h e. omega (arith, h.0, e)) (decimal n) (All-decimal n)
int_text-no_slash (negsuc n) = (
  (λ e. omega (arith, e)),
  All-map (λ c h e. omega (arith, h.0, e)) (decimal (suc n)) (All-decimal (suc n)),
)

data_rate_text-no_slash : (r : CrazyradioDataRate) → All (λ c. c ≢ b'/') (data_rate_text r)
unfolding data_rate_text
data_rate_text-no_slash dr_250kps = (
  λ e. omega (arith, e),
  (λ e. omega (arith, e), (λ e. omega (arith, e), (λ e. omega (arith, e), tt))),
)
data_rate_text-no_slash dr_1mps = (λ e. omega (arith, e), (λ e. omega (arith, e), tt))
data_rate_text-no_slash dr_2mps = (λ e. omega (arith, e), (λ e. omega (arith, e), tt))

upper_hexlify-no_slash : (bs : Bytes) → All IsByte bs → All (λ c. c ≢ b'/') (upper_hexlify bs)
upper_hexlify-no_slash bs h = All-map not_slash (upper_hexlify bs) (All-upper_hexlify bs h)

first_of_int : (n : ℤ) → (d : ℕ) × (ds : Text) × (int_text n ≡ d ∷ ds)
unfolding int_text
first_of_int (pos n) = let (d, ds, e, h) = first_of_decimal n in (d, ds, e)
first_of_int (negsuc n) = (b'-', decimal (suc n), refl)

data_rate_text-from_string :
    (r : CrazyradioDataRate) → data_rate_from_string (spelled (data_rate_text r)) ≡ ok r
unfolding data_rate_from_string data_rate_text bytes_eq one_of
data_rate_text-from_string dr_250kps = refl
data_rate_text-from_string dr_1mps = refl
data_rate_text-from_string dr_2mps = refl

-- An address of five bytes is read back from its hexadecimal digits.
upper_hexlify-to_radio_address :
    (bs : Bytes) (allow_prefix : Bool)
    → length bs ≡ 5
    → All IsByte bs
    → to_radio_address (text (upper_hexlify bs)) allow_prefix ≡ ok bs
unfolding to_radio_address filled
upper_hexlify-to_radio_address bs allow_prefix h k =
    let even : (length (upper_hexlify bs) % 2 == 0) ≡ true =
      ground (arith, length-upper_hexlify bs) in
    rw (even, to_radio_address)
      (rw (upper_hexlify-unhexlify bs k, to_radio_address) (rw (h, filled) refl))

channel-value :
    (c : ℕ) (parts : List Text) → c ≤ 125 → parse_channel (int_text (pos c) ∷ parts) ≡ ok (c, parts)
unfolding parse_channel channel_of
channel-value c parts h =
    let low : ltb 125 c ≡ false = ground (arith, h) in
    rw (int_text-parse_int (pos c), low, parse_channel) refl

-- The parts of a URI with all four of them are read back.
parse_parts-printed :
    (scheme : Text) (i : ℤ) (c : ℕ) (r : CrazyradioDataRate) (bs : Bytes) (allow_prefix : Bool)
    (default_address : Bytes)
    → c ≤ 125
    → length bs ≡ 5
    → All IsByte bs
    → parse_parts scheme allow_prefix default_address
        (int_text i ∷ int_text (pos c) ∷ data_rate_text r ∷ upper_hexlify bs ∷ [])
      ≡ ok (record { address = bs; channel = c; data_rate = r; index = i; scheme = scheme })
unfolding parse_parts parse_index parse_data_rate parse_address
parse_parts-printed scheme i c r bs allow_prefix default_address h k l =
    rw
      (
        int_text-parse_int i,
        channel-value c (data_rate_text r ∷ upper_hexlify bs ∷ []) h,
        data_rate_text-from_string r,
        upper_hexlify-to_radio_address bs allow_prefix k l,
      )
      refl

-- The path of a URI that is printed.
unfoldable pub path_of : ℤ → ℕ → CrazyradioDataRate → Bytes → Text
path_of i c r bs =
    int_text i
    ++ (b'/' ∷ (int_text (pos c) ++ (b'/' ∷ (data_rate_text r ++ (b'/' ∷ upper_hexlify bs)))))

path_parts-path_of :
    (i : ℤ) (c : ℕ) (r : CrazyradioDataRate) (bs : Bytes)
    → All IsByte bs
    → path_parts (path_of i c r bs)
      ≡ ok (int_text i ∷ int_text (pos c) ∷ data_rate_text r ∷ upper_hexlify bs ∷ [])
unfolding path_of
path_parts-path_of i c r bs h =
    let (d, ds, e) = first_of_int i in
    let rest = int_text (pos c) ++ (b'/' ∷ (data_rate_text r ++ (b'/' ∷ upper_hexlify bs))) in
    let first = path_parts-append d ds rest (subst (All (λ x. x ≢ b'/')) e (int_text-no_slash i)) in
    let second =
      split_slash-append (int_text (pos c)) (data_rate_text r ++ (b'/' ∷ upper_hexlify bs))
        (int_text-no_slash (pos c)) in
    let third =
      split_slash-append (data_rate_text r) (upper_hexlify bs) (data_rate_text-no_slash r) in
    let fourth = split_slash-last (upper_hexlify bs) (upper_hexlify-no_slash bs h) in
    ap (λ x. path_parts (x ++ (b'/' ∷ rest))) e
    ∙ first
    ∙ ap (λ x. ok (x ∷ split_slash rest)) (sym e)
    ∙ ap (λ ps. ok (int_text i ∷ ps))
        (second
          ∙ ap (λ ps. int_text (pos c) ∷ ps) (third ∙ ap (λ ps. data_rate_text r ∷ ps) fourth))

-- The parts of a URI that is printed are read back.
pub path_of-parse_radio_uri :
    (scheme : Text) (i : ℤ) (c : ℕ) (r : CrazyradioDataRate) (bs : Bytes) (allow_prefix : Bool)
    (default_address : Bytes)
    → All (λ x. x ≢ b':') scheme
    → c ≤ 125
    → length bs ≡ 5
    → All IsByte bs
    → parse_radio_uri
        (scheme ++ (scheme_separator ++ path_of i c r bs))
        allow_prefix
        default_address
      ≡ ok (record { address = bs; channel = c; data_rate = r; index = i; scheme = scheme })
unfolding parse_radio_uri
path_of-parse_radio_uri scheme i c r bs allow_prefix default_address plain h five bytes =
    rw (partition-append scheme (path_of i c r bs) plain, parse_radio_uri)
      (rw (path_parts-path_of i c r bs bytes)
        (parse_parts-printed scheme i c r bs allow_prefix default_address h five bytes))
