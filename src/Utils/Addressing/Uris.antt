-- ===== src/Utils/Addressing/Uris.antt =====
-- `parse_radio_uri` of aiocflib/utils/addressing.py.
pub mod Splitting
pub mod Printing
use aiocflib.Prelude.{
  ℕ, Bool, List, [], ◌∷◌, Option, none, some, Result, ok, err, bind, value_error, ltb, ◌==◌,
  if◌then◌else◌, Bytes, bytes_eq,
}
use aiocflib.Prelude.Integers.{ℤ, pos, negsuc}
use aiocflib.Crazyflie.Names.{Text}
use aiocflib.Utils.Addressing.Numerals.{parse_int}
use aiocflib.Utils.Addressing.{
  CrazyradioDataRate, dr_2mps, spelled, data_rate_from_string, text, to_radio_address,
}

-- The dictionary of `parse_radio_uri`.
pub record RadioUri : Type 0 where
  pub address : Bytes
  pub channel : ℕ
  pub data_rate : CrazyradioDataRate
  pub index : ℤ
  pub scheme : Text

-- The text behind a prefix.
unfoldable pub behind : Text → Text → Option Text
behind [] cs = some cs
behind (p ∷ ps) [] = none
behind (p ∷ ps) (c ∷ cs) = let rest = behind ps cs in if p == c then rest else none

abbrev pub scheme_separator : Text
scheme_separator = b':' ∷ b'/' ∷ b'/' ∷ []

-- `partition("://")`
unfoldable pub partition : Text → Option (Text × Text)
unfolding behind
partition [] = none
partition (c ∷ cs) =
    let rest = partition cs in
    elim (behind scheme_separator (c ∷ cs)) [
      | some path ↦ some ([], path)
      | none ↦ elim rest [ none ↦ none | some (scheme, path) ↦ some (c ∷ scheme, path) ]
    ]

-- `split("/")`
unfoldable pub split_slash : Text → List Text
split_slash [] = [] ∷ []
split_slash (c ∷ cs) =
    let rest = split_slash cs in
    if c == b'/'
    then [] ∷ rest
    else elim rest [ [] ↦ (c ∷ []) ∷ [] | part ∷ parts ↦ (c ∷ part) ∷ parts ]

abbrev without_empty_first : List Text → List Text
without_empty_first [] = []
without_empty_first ([] ∷ parts) = parts
without_empty_first ((c ∷ cs) ∷ parts) = (c ∷ cs) ∷ parts

-- The path behind its first slash, if it begins with one.
unfoldable pub parts_of_rest : Text → List Text
unfolding split_slash bytes_eq
parts_of_rest [] = []
parts_of_rest (c ∷ cs) =
    if bytes_eq (c ∷ cs) (b'/' ∷ []) then [] else without_empty_first (split_slash (c ∷ cs))

unfoldable pub path_parts : Text → Result (List Text)
unfolding parts_of_rest
path_parts [] = err value_error
path_parts (c ∷ cs) = ok (if c == b'/' then parts_of_rest cs else parts_of_rest (c ∷ cs))

abbrev or_value_error {ℓ} : {A : Type ℓ} → Result A → Result A
or_value_error (ok a) = ok a
or_value_error (err e) = err value_error

unfoldable pub parse_index : List Text → Result (ℤ × List Text)
unfolding parse_int
parse_index [] = ok (pos 0, [])
parse_index (part ∷ parts) = bind (parse_int part) (λ n. ok (n, parts))

unfoldable pub channel_of : ℤ → Result ℕ
channel_of (pos n) = if ltb 125 n then err value_error else ok n
channel_of (negsuc n) = err value_error

unfoldable pub parse_channel : List Text → Result (ℕ × List Text)
unfolding parse_int channel_of
parse_channel [] = ok (2, [])
parse_channel (part ∷ parts) =
    bind (parse_int part) (λ n. bind (channel_of n) (λ channel. ok (channel, parts)))

unfoldable pub parse_data_rate : List Text → Result (CrazyradioDataRate × List Text)
unfolding data_rate_from_string
parse_data_rate [] = ok (dr_2mps, [])
parse_data_rate (part ∷ parts) = bind (data_rate_from_string (spelled part)) (λ r. ok (r, parts))

unfoldable pub parse_address : Bool → Bytes → List Text → Result (Bytes × List Text)
unfolding to_radio_address
parse_address allow_prefix default_address [] = ok (default_address, [])
parse_address allow_prefix default_address (part ∷ parts) =
    bind (or_value_error (to_radio_address (text part) allow_prefix)) (λ bs. ok (bs, parts))

abbrev no_more : List Text → Result (Unit {0})
no_more [] = ok tt
no_more (part ∷ parts) = err value_error

unfoldable pub parse_parts : Text → Bool → Bytes → List Text → Result RadioUri
unfolding parse_index parse_channel parse_data_rate parse_address
parse_parts scheme allow_prefix default_address parts = bind (parse_index parts) (λ i.
    bind (parse_channel i.1) (λ c. bind (parse_data_rate c.1) (λ r.
      bind (parse_address allow_prefix default_address r.1) (λ a. bind (no_more a.1) (λ u.
        ok (record {
          address = a.0;
          channel = c.0;
          data_rate = r.0;
          index = i.0;
          scheme = scheme;
        }))))))

unfoldable pub parse_radio_uri : Text → Bool → Bytes → Result RadioUri
unfolding partition path_parts parse_parts
parse_radio_uri uri allow_prefix default_address = elim (partition uri) [
  | none ↦ err value_error
  | some (scheme, path) ↦ bind (path_parts path) (parse_parts scheme allow_prefix default_address)
]
