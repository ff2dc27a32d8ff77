-- ===== src/Utils/Addressing/Spaces/RoundTrip.antt =====
-- `parse_radio_uri` reads back the URIs of a radio address space.
use aiocflib.Prelude.{
  ℕ, ◌+◌, ◌^◌, ◌≤◌, ◌≡◌, ◌≢◌, refl, ap, ◌∙◌, Bool, ◌∷◌, ◌++◌, ok, err, overflow_error, index_error,
  append_assoc, of_ok, Bytes, All, IsByte, length, ltb, arith, Bool-cases, inl, inr, bind-eq-ok,
  Result, sym,
}
use aiocflib.Prelude.Integers.{ℤ, pos, negsuc}
use aiocflib.Crazyflie.Names.{Text}
use aiocflib.Utils.Addressing.{address_bytes}
use aiocflib.Utils.Addressing.Numerals.{upper_hexlify, be_bytes}
use aiocflib.Utils.Addressing.Digits.{length-be_bytes, All-be_bytes}
use aiocflib.Utils.Addressing.Uris.{RadioUri, parse_radio_uri, scheme_separator}
use aiocflib.Utils.Addressing.Spaces.{
  RadioAddressSpace, base_address, uri_prefix, get_address_for, radio_uri, first_argument,
}
use aiocflib.Utils.Addressing.Spaces.Templates.{NoBrace, format-uri_format}
use aiocflib.Utils.Addressing.Uris.Printing.{path_of, path_of-parse_radio_uri}

printed_uri :
    (space : RadioAddressSpace) (c : ℕ) (bs : Bytes)
    → space.channel ≡ pos c
    → uri_prefix space ++ (b'/' ∷ upper_hexlify bs)
      ≡ space.scheme ++ (scheme_separator ++ path_of space.index c space.data_rate bs)
unfolding uri_prefix path_of
printed_uri space c bs e = rw e (simp append_assoc refl)

five_bytes : (v : ℕ) (bs : Bytes) → address_bytes v ≡ ok bs → (length bs ≡ 5) × All IsByte bs
unfolding address_bytes
five_bytes v bs h = elim (Bool-cases (ltb v (256 ^ 5))) [
  | inl e ↦
      let same : ok (be_bytes 5 v) ≡ ok bs = rw e at h in
      of_ok (λ x. (length x ≡ 5) × All IsByte x) same (length-be_bytes 5 v, All-be_bytes 5 v)
  | inr e ↦ let raised : err overflow_error ≡ ok bs = rw e at h in absurd (ground arith)
]

get_address_for-lem :
    (space : RadioAddressSpace) (n : ℤ) (bs : Bytes)
    → get_address_for space n ≡ ok bs
    → (length bs ≡ 5) × All IsByte bs
unfolding get_address_for
get_address_for-lem space (pos n) bs h = elim (Bool-cases (ltb n space.length)) [
  | inl e ↦ five_bytes (base_address space + n) bs (rw (e, get_address_for) at h)
  | inr e ↦
      let raised : err index_error ≡ ok bs = rw (e, get_address_for) at h in absurd (ground arith)
]
get_address_for-lem space (negsuc n) bs h = absurd (ground (arith, h))

-- The parts of the URI of an item.
abbrev pub uri_of : RadioAddressSpace → ℕ → Bytes → RadioUri
uri_of space c bs = record {
  address = bs;
  channel = c;
  data_rate = space.data_rate;
  index = space.index;
  scheme = space.scheme;
}

-- Of an address space whose scheme has neither a colon nor a brace and whose channel is one of the radio's,
-- the URI of an item is read back, with or without prefixes and a default address: to the scheme, the index,
-- the channel and the data rate of the space, and to the address of the item. Of `str.format` it uses that
-- "{0}" behind a text without braces is replaced by the argument.
pub radio_uri-parse_radio_uri :
    (format : Text → Text → Result Text) (space : RadioAddressSpace) (n : ℤ) (c : ℕ) (uri : Text)
    (allow_prefix : Bool) (default_address : Bytes)
    → ((literal x : Text)
        → All NoBrace literal
        → format (literal ++ first_argument) x ≡ ok (literal ++ x))
    → All (λ x. x ≢ b':') space.scheme
    → All NoBrace space.scheme
    → space.channel ≡ pos c
    → c ≤ 125
    → radio_uri format space n ≡ ok uri
    → (bs : Bytes) × (get_address_for space n ≡ ok bs)
      × (parse_radio_uri uri allow_prefix default_address ≡ ok (uri_of space c bs))
unfolding radio_uri
radio_uri-parse_radio_uri format space n c uri allow_prefix default_address formats plain braces e h
      k =
    let (bs, found, formatted) = bind-eq-ok (get_address_for space n) _ k in
    let printed : ok (uri_prefix space ++ (b'/' ∷ upper_hexlify bs)) ≡ ok uri =
      sym (format-uri_format format ok space (upper_hexlify bs) formats braces) ∙ formatted in
    let (five, bytes) = get_address_for-lem space n bs found in
    let parsed =
      path_of-parse_radio_uri space.scheme space.index c space.data_rate bs allow_prefix
        default_address plain h five bytes in
    let same : parse_radio_uri (uri_prefix space ++ (b'/' ∷ upper_hexlify bs)) allow_prefix
          default_address
        ≡ ok (uri_of space c bs) =
      ap (λ u. parse_radio_uri u allow_prefix default_address) (printed_uri space c bs e)
      ∙ parsed in
    (
      bs,
      found,
      of_ok (λ u. parse_radio_uri u allow_prefix default_address ≡ ok (uri_of space c bs)) printed
          same,
    )
