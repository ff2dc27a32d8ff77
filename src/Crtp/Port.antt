-- ===== src/Crtp/Port.antt =====
-- `CRTPPort` and its three-letter codes, of aiocflib/crtp/crtpstack.py.
use Prim.Native.String.{String}
use aiocflib.Prelude.{
  ℕ, ◌<◌, ◌≡◌, refl, List, [], ◌∷◌, Option, none, some, Result, ok, err, value_error, get_elem?,
  get_elem?-lt, arith,
}

pub data CrtpPort : Type 0 where
  console unused_1 parameters commander memory logging localization : CrtpPort
  generic_commander high_level_commander unused_9 unused_10 unused_11 unused_12 : CrtpPort
  platform debug link_control : CrtpPort

-- The members in the order of their values, which are 0 to 15.
abbrev crtp_ports : List CrtpPort
crtp_ports =
    console ∷ unused_1 ∷ parameters ∷ commander ∷ memory ∷ logging ∷ localization
    ∷ generic_commander ∷ high_level_commander ∷ unused_9 ∷ unused_10 ∷ unused_11 ∷ unused_12
    ∷ platform ∷ debug ∷ link_control ∷ []

unfoldable pub port_value : CrtpPort → ℕ
port_value console = 0
port_value unused_1 = 1
port_value parameters = 2
port_value commander = 3
port_value memory = 4
port_value logging = 5
port_value localization = 6
port_value generic_commander = 7
port_value high_level_commander = 8
port_value unused_9 = 9
port_value unused_10 = 10
port_value unused_11 = 11
port_value unused_12 = 12
port_value platform = 13
port_value debug = 14
port_value link_control = 15

abbrev pub or_raise {ℓ} : {A : Type ℓ} → Option A → Result A
or_raise none = err value_error
or_raise (some a) = ok a

-- `CRTPPort(value)`: a value that is no member raises `ValueError`.
unfoldable pub to_port : ℕ → Result CrtpPort
unfolding port_value
to_port value = or_raise (get_elem? crtp_ports value)

abbrev crtp_port_codes : List String
crtp_port_codes =
    "CON" ∷ "P01" ∷ "PRM" ∷ "CMD" ∷ "MEM" ∷ "LOG" ∷ "LOC" ∷ "GEN" ∷ "HLC" ∷ "P09" ∷ "P10" ∷ "P11"
    ∷ "P12" ∷ "PLT" ∷ "DBG" ∷ "LNK" ∷ []

-- `_crtp_port_codes[int(self)]`
unfoldable pub port_code : CrtpPort → Option String
unfolding port_value
port_code p = get_elem? crtp_port_codes (port_value p)

-- A member is found again from its value.
pub to_port-port_value : (p : CrtpPort) → to_port (port_value p) ≡ ok p
unfolding to_port
to_port-port_value console = refl
to_port-port_value p = refl

pub port_value-lt : (p : CrtpPort) → port_value p < 16
unfolding port_value
port_value-lt console = omega arith
port_value-lt p = omega arith

pub port_value-to_port : (n : ℕ) (p : CrtpPort) → to_port n ≡ ok p → port_value p ≡ n
unfolding to_port
port_value-to_port n p h = ground arith

pub to_port_member : (n : ℕ) → n < 16 → (p : CrtpPort) × (to_port n ≡ ok p)
unfolding to_port
to_port_member n h = let (p, e) = get_elem?-lt crtp_ports n h in (p, rw e)
