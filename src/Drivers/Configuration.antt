-- ===== src/Drivers/Configuration.antt =====
-- The class `RadioConfiguration` of aiocflib/drivers/crazyradio.py. The data rate, which callers may set to
-- anything, is one of the enumeration.
use aiocflib.Prelude.{
  ℕ, Bool, true, false, [], ◌∷◌, ◌++◌, Option, none, some, Result, ok, bind, Bytes,
}
use aiocflib.Prelude.Integers.{ℤ, pos}
use aiocflib.Crazyflie.Names.{Text}
use aiocflib.Utils.Addressing.{
  CrazyradioDataRate, data_rate_text, AddressLike, raw, to_radio_address, default_radio_address,
}
use aiocflib.Utils.Addressing.Numerals.{int_text, upper_hexlify}
use aiocflib.Utils.Addressing.Uris.{parse_radio_uri, scheme_separator}

pub record RadioConfiguration : Type 0 where
  pub address : Option Bytes
  pub channel : Option ℕ
  pub data_rate : CrazyradioDataRate
  pub scheme : Text

-- `to_address(address) if address is not None else None`
unfoldable pub optional_address : Option AddressLike → Result (Option Bytes)
unfolding to_radio_address
optional_address none = ok none
optional_address (some a) = bind (to_radio_address a false) (λ bs. ok (some bs))

unfoldable pub radio_configuration :
    Option AddressLike → Option ℕ → CrazyradioDataRate → Text → Result RadioConfiguration
unfolding optional_address
radio_configuration address channel data_rate scheme =
    bind (optional_address address)
      (λ a. ok (record { address = a; channel = channel; data_rate = data_rate; scheme = scheme }))

unfoldable pub from_uri : Text → Result RadioConfiguration
unfolding parse_radio_uri radio_configuration
from_uri uri =
    bind (parse_radio_uri uri false default_radio_address)
      (λ u. radio_configuration (some (raw u.address)) (some u.channel) u.data_rate u.scheme)

-- What `ensure` takes.
pub data RadioConfigurationLike : Type 0 where
  uri : Text → RadioConfigurationLike
  configuration : RadioConfiguration → RadioConfigurationLike

unfoldable pub ensure : RadioConfigurationLike → Result RadioConfiguration
unfolding from_uri
ensure (uri text) = from_uri text
ensure (configuration c) = ok c

unfoldable pub is_full : RadioConfiguration → Bool
is_full c = elim c.address [
  | none ↦ false
  | some bs ↦ elim c.channel [ none ↦ false | some n ↦ true ]
]

abbrev or_old {ℓ} : {A : Type ℓ} → Option A → A → A
or_old none old = old
or_old (some new) old = new

-- The old address as an argument.
abbrev as_argument : Option Bytes → Option AddressLike
as_argument none = none
as_argument (some bs) = some (raw bs)

abbrev first_of {ℓ} : {A : Type ℓ} → Option A → Option A → Option A
first_of none old = old
first_of (some new) old = some new

unfoldable pub replace :
    Option AddressLike
    → Option CrazyradioDataRate
    → Option ℕ
    → Option Text
    → RadioConfiguration
    → Result RadioConfiguration
unfolding radio_configuration
replace address data_rate channel scheme c =
    radio_configuration (first_of address (as_argument c.address)) (first_of channel c.channel)
      (or_old data_rate c.data_rate) (or_old scheme c.scheme)

unfoldable pub address_part : Option Bytes → Text
unfolding upper_hexlify
address_part none = []
address_part (some bs) = b'/' ∷ upper_hexlify bs

unfoldable pub channel_part : Option ℕ → CrazyradioDataRate → Option Bytes → Text
unfolding int_text data_rate_text address_part
channel_part none data_rate address = []
channel_part (some n) data_rate address =
    b'/' ∷ (int_text (pos n) ++ (b'/' ∷ (data_rate_text data_rate ++ address_part address)))

unfoldable pub to_uri : RadioConfiguration → ℤ → Text
unfolding int_text channel_part
to_uri c index =
    c.scheme
    ++ (scheme_separator ++ (int_text index ++ channel_part c.channel c.data_rate c.address))
