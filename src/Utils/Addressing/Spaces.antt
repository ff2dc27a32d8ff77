-- ===== src/Utils/Addressing/Spaces.antt =====
-- The address spaces of aiocflib/utils/addressing.py. Detecting Crazyflies on the USB bus is a parameter.
pub mod RoundTrip
pub mod Templates
use aiocflib.Prelude.{
  ℕ, zero, suc, ◌+◌, ◌-◌, ◌*◌, ◌/◌, ◌%◌, ◌^◌, Bool, true, false, ◌&&◌, not, List, [], ◌∷◌, ◌++◌,
  Option, none, some, Result, ok, err, bind, value_error, type_error, index_error, overflow_error,
  ltb, leb, ◌==◌, if◌then◌else◌, Bytes, bytes_eq, length, replicate, get_elem?,
}
use aiocflib.Prelude.Integers.{ℤ, pos, negsuc, to_nat}
use aiocflib.Crazyflie.Names.{Text}
use aiocflib.Utils.Addressing.Numerals.{
  parse_int, int_text, unhexlify, upper_hexlify, be_value, be_bytes,
}
use aiocflib.Utils.Addressing.{
  CrazyradioDataRate, DataRateLike, rate, data_rate_from_string, data_rate_text, AddressLike, raw,
  to_radio_address, address_bytes, default_radio_address,
}
use aiocflib.Utils.Addressing.Uris.{RadioUri, parse_radio_uri, scheme_separator}

-- `length` is not negative, since the constructor takes the maximum with 0.
pub record RadioAddressSpace : Type 0 where
  pub index : ℤ
  pub channel : ℤ
  pub data_rate : CrazyradioDataRate
  pub scheme : Text
  pub prefix : Bytes
  pub length : ℕ

unfoldable pub radio_address_space :
    ℤ → ℤ → DataRateLike → AddressLike → ℤ → Text → Result RadioAddressSpace
unfolding data_rate_from_string to_radio_address to_nat
radio_address_space index channel data_rate prefix len scheme =
    bind (data_rate_from_string data_rate) (λ r. bind (to_radio_address prefix true) (λ bs.
      ok (record {
        index = index;
        channel = channel;
        data_rate = r;
        scheme = scheme;
        prefix = bs;
        length = to_nat len;
      })))

unfoldable pub from_uri : Text → ℤ → Result RadioAddressSpace
unfolding parse_radio_uri radio_address_space
from_uri uri len = bind (parse_radio_uri uri true default_radio_address) (λ u.
    radio_address_space u.index (pos u.channel) (rate u.data_rate) (raw u.address) len u.scheme)

unfoldable pub base_address : RadioAddressSpace → ℕ
unfolding be_value
base_address space = be_value space.prefix

unfoldable pub uri_prefix : RadioAddressSpace → Text
unfolding int_text data_rate_text
uri_prefix space =
    space.scheme
    ++ (scheme_separator
        ++ (int_text space.index
            ++ (b'/' ∷ (int_text space.channel ++ (b'/' ∷ data_rate_text space.data_rate)))))

unfoldable pub get_address_for : RadioAddressSpace → ℤ → Result Bytes
unfolding base_address address_bytes
get_address_for space (pos n) =
    if ltb n space.length then address_bytes (base_address space + n) else err index_error
get_address_for space (negsuc n) = err index_error

-- "{0}", the replacement field at the end of a template of `str.format`.
abbrev pub first_argument : Text
first_argument = b'{' ∷ b'0' ∷ b'}' ∷ []

unfoldable pub uri_format : RadioAddressSpace → Text
unfolding uri_prefix
uri_format space = uri_prefix space ++ (b'/' ∷ first_argument)

-- `space[index]`. `format` is `str.format` with one text: the template has the scheme in it, and braces in
-- the scheme are replacement fields as well.
unfoldable pub radio_uri : (Text → Text → Result Text) → RadioAddressSpace → ℤ → Result Text
unfolding get_address_for uri_format upper_hexlify
radio_uri format space index =
    bind (get_address_for space index) (λ bs. format (uri_format space) (upper_hexlify bs))

-- `BootloaderAddressSpace(index, scheme)[n]`: a list of two, with Python's negative indices.
unfoldable pub bootloader_item : ℤ → Text → ℕ → Text
unfolding int_text
bootloader_item index scheme channel =
    scheme ++ (scheme_separator ++ (int_text index ++ (b'/' ∷ int_text (pos channel))))

unfoldable pub bootloader_uri : ℤ → Text → ℤ → Result Text
unfolding bootloader_item
bootloader_uri index scheme (pos n) =
    if n == 0
    then ok (bootloader_item index scheme 0)
    else if n == 1
    then ok (bootloader_item index scheme 110)
    else err index_error
bootloader_uri index scheme (negsuc n) =
    if n == 0
    then ok (bootloader_item index scheme 110)
    else if n == 1
    then ok (bootloader_item index scheme 0)
    else err index_error

pub record UsbAddressSpace : Type 0 where
  pub length : ℕ
  pub scheme : Text

unfoldable pub usb_address_space : ℤ → Text → UsbAddressSpace
unfolding to_nat
usb_address_space len scheme = record { length = to_nat len; scheme = scheme }

-- `format` is `str.format` with one number; the template has the scheme in it.
unfoldable pub usb_uri : (Text → ℤ → Result Text) → UsbAddressSpace → ℤ → Result Text
usb_uri format space (pos n) =
    if ltb n space.length
    then format (space.scheme ++ (scheme_separator ++ first_argument)) (pos n)
    else err index_error
usb_uri format space (negsuc n) = err index_error

-- `refresh`: `detected` is what `CfUsb.detect_all` gives.
unfoldable pub refresh : {A : Type 0} → List A → UsbAddressSpace → UsbAddressSpace
refresh detected space = record space { length = length detected }
