-- ===== src/Tests/AddressingRuns.antt =====
-- The theorems on addresses at concrete inputs.
use aiocflib.Prelude.{
  ◌≡◌, refl, false, [], ◌∷◌, ok, err, type_error, Bytes, arith, ◌≤◌, ◌<◌, some, true, ◌*◌, ◌/◌, ◌+◌,
  ◌%◌, bytes_eq, Result, if◌then◌else◌, All, ◌++◌, ◌==◌, value_error, bind,
}
use aiocflib.Prelude.Integers.{pos}
use aiocflib.Crazyflie.Names.{Text}
use aiocflib.Utils.Addressing.{dr_1mps, numbered, text, to_radio_address, default_radio_address}
use aiocflib.Utils.Addressing.Numerals.{decimal}
use aiocflib.Utils.Addressing.Addresses.{to_radio_address_lem}
use aiocflib.Utils.Addressing.Uris.{parse_radio_uri}
use aiocflib.Utils.Addressing.Spaces.{RadioAddressSpace, radio_uri, get_address_for, first_argument}
use aiocflib.Utils.Addressing.Spaces.Templates.{NoBrace}
use aiocflib.Drivers.Configuration.{RadioConfiguration}
use aiocflib.Utils.Addressing.Spaces.RoundTrip.{uri_of, radio_uri-parse_radio_uri}

-- Radio 1, channel 80, 1M.
abbrev swarm : RadioAddressSpace
swarm = record {
  index = pos 1;
  channel = pos 80;
  data_rate = dr_1mps;
  scheme = b'r' ∷ [];
  prefix = 0xE7 ∷ 0xE7 ∷ 0xE7 ∷ 0xE7 ∷ 0 ∷ [];
  length = 256;
}

-- "r://1/80/1M/E7E7E7E71F"
abbrev swarm_31 : Text
swarm_31 =
    b'r' ∷ b':' ∷ b'/' ∷ b'/' ∷ b'1' ∷ b'/' ∷ b'8' ∷ b'0' ∷ b'/' ∷ b'1' ∷ b'M' ∷ b'/' ∷ b'E' ∷ b'7'
    ∷ b'E' ∷ b'7' ∷ b'E' ∷ b'7' ∷ b'E' ∷ b'7' ∷ b'1' ∷ b'F' ∷ []

-- `str.format` of a template whose only field is "{0}" at its end; other braces are refused.
abbrev format_at_end : Text → Text → Result Text
format_at_end [] x = ok []
format_at_end (c ∷ cs) x =
    let rest = format_at_end cs x in
    if bytes_eq (c ∷ cs) first_argument
    then ok x
    else if c == b'{'
    then err value_error
    else if c == b'}'
    then err value_error
    else bind rest (λ t. ok (c ∷ t))

format_at_end-literal :
    (literal x : Text)
    → All NoBrace literal
    → format_at_end (literal ++ first_argument) x ≡ ok (literal ++ x)
unfolding bytes_eq
format_at_end-literal [] x h = refl
format_at_end-literal (c ∷ cs) x h =
    let no_opening : (c == b'{') ≡ false = ground (arith, h.0.0) in
    let no_closing : (c == b'}') ≡ false = ground (arith, h.0.1) in
    rw (no_opening, no_closing, format_at_end-literal cs x h.1) refl

printed : radio_uri format_at_end swarm (pos 31) ≡ ok swarm_31
unfolding radio_uri bytes_eq
printed = refl

radio_uri-parse_radio_uri_example :
    (bs : Bytes) × (get_address_for swarm (pos 31) ≡ ok bs)
    × (parse_radio_uri swarm_31 false default_radio_address ≡ ok (uri_of swarm 80 bs))
radio_uri-parse_radio_uri_example =
    radio_uri-parse_radio_uri format_at_end swarm (pos 31) 80 swarm_31 false default_radio_address
      format_at_end-literal ((λ e. omega (arith, e)), tt)
      (((λ e. omega (arith, e)), (λ e. omega (arith, e))), tt) refl (omega arith) printed

to_radio_address_lem_example :
    (12 ≤ 255
      → to_radio_address (numbered (pos 12)) false ≡ ok (0xE7 ∷ 0xE7 ∷ 0xE7 ∷ 0xE7 ∷ 12 ∷ []))
    × (12 < 10
        → to_radio_address (text (decimal 12)) false ≡ ok (0xE7 ∷ 0xE7 ∷ 0xE7 ∷ 0xE7 ∷ 12 ∷ []))
    × (10 ≤ 12 → 12 < 100 → to_radio_address (text (decimal 12)) false ≡ err type_error)
    × (10 ≤ 12
        → 12 < 100
        → to_radio_address (text (decimal 12)) true
          ≡ ok ((16 * (12 / 10) + 12 % 10) ∷ 0 ∷ 0 ∷ 0 ∷ 0 ∷ []))
to_radio_address_lem_example = to_radio_address_lem 12 false

-- Channel 80, 1M and the default address.
abbrev tuned : RadioConfiguration
tuned = record {
  address = some default_radio_address;
  channel = some 80;
  data_rate = dr_1mps;
  scheme = b'r' ∷ [];
}
