-- ===== src/Tests/LogRuns.antt =====
-- The theorems on logging at concrete inputs.
use aiocflib.Prelude.{
  ℕ, zero, suc, ◌≡◌, refl, false, [], ◌∷◌, none, some, ok, err, struct_error, Bytes, arith,
  pack_uint, le_bytes,
}
use aiocflib.Crazyflie.Client.{Crazyflie}
use aiocflib.Crazyflie.Values.{signed, unsigned, nonneg, negative, Floats, pack}
use aiocflib.Crazyflie.Log.{VariableSpecification, to_bytes, from_bytes, decode_values}
use aiocflib.Crazyflie.Log.Specs.{variable-to_bytes-from_bytes}
use aiocflib.Crazyflie.Log.Messages.{pack_fields, pack_fields-decode_values}
use aiocflib.Crazyflie.Log.Periods.{Rates}
use aiocflib.Crazyflie.Log.Blocks.{LogBlock, empty_block, Log, dispose_of}
use aiocflib.Crazyflie.Log.Commands.{new_block, submit}
use aiocflib.Crazyflie.Log.Life.Device.{IsReady}
use aiocflib.Crazyflie.Log.Life.Reachable.{here, next, creates, submits, Reaches-IsReady}
use aiocflib.Crazyflie.Log.Sessions.{
  Entry, LogSession, Session, disposal, aenter, aexit, new_session,
}
use aiocflib.Crazyflie.Log.Sessions.Leaving.{Disposes, aexit-clears}
use aiocflib.Crazyflie.Log.Sessions.Entering.{Mapping, IsEntered, aenter-IsEntered}

abbrev number_free : Floats (Unit {0})
number_free = record { pack_float = λ n v. err struct_error; unpack_float = λ n bs. tt }

abbrev no_rates : Rates (Unit {0})
no_rates = record { ten = tt; reciprocal = λ x. ok tt; per_second = λ x. ok 100 }

-- A Crazyflie that answers every command with the status 0.
abbrev willing : Crazyflie (Unit {0}) (Unit {0})
willing = record { run_command = λ r s. (ok (0 ∷ []), s); cache = none; floats = number_free }

-- The variable "a.b", an unsigned integer of one byte.
abbrev pitch : VariableSpecification
pitch = record { id = 7; type = 1; group = 97 ∷ []; name = 98 ∷ [] }

variable-to_bytes-from_bytes_example :
    (bs : Bytes) × (to_bytes pitch ≡ ok bs) × (from_bytes bs pitch.id ≡ ok pitch)
variable-to_bytes-from_bytes_example =
    variable-to_bytes-from_bytes pitch (omega arith) ((omega arith, omega arith), tt)
      ((omega arith, omega arith), tt)

packed :
    pack_fields number_free (unsigned 1 ∷ signed 2 ∷ []) (nonneg 5 ∷ negative 1 ∷ [])
    ≡ ok (5 ∷ 254 ∷ 255 ∷ [])
unfolding pack_fields pack pack_uint le_bytes
packed = refl

pack_fields-decode_values_example :
    decode_values number_free
      (some (unsigned 1 ∷ signed 2 ∷ []))
      (3 ∷ 1 ∷ 0 ∷ 0 ∷ 5 ∷ 254 ∷ 255 ∷ 9 ∷ [])
    ≡ ok (nonneg 5 ∷ negative 1 ∷ [])
pack_fields-decode_values_example =
    pack_fields-decode_values number_free (unsigned 1 ∷ signed 2 ∷ []) (nonneg 5 ∷ negative 1 ∷ [])
      (5 ∷ 254 ∷ 255 ∷ []) (9 ∷ []) 3 1 0 0 (omega arith, (omega arith, tt)) packed

-- A `Log` that has been validated, with no variables and with block objects that are not submitted.
abbrev idle_log : Log (Unit {0})
idle_log = record {
  device = tt;
  next_id = 0;
  variables = some ([], []);
  blocks = λ j. empty_block;
  created = 0;
}

idle_log-IsReady : IsReady idle_log
idle_log-IsReady = record {
  known = (([], []), refl);
  consistent = record {
    enrolled = λ i id h. absurd (ground arith);
    handed_out = λ i d h. absurd (ground arith);
    distinct = λ i j d h g. absurd (ground arith);
  };
}

abbrev log_with_block : Log (Unit {0})
log_with_block = (new_block willing idle_log).1

abbrev log_with_submitted : Log (Unit {0})
log_with_submitted = (submit willing 0 false log_with_block).1

Reaches-IsReady_example : IsReady log_with_submitted
Reaches-IsReady_example =
    Reaches-IsReady willing idle_log-IsReady
      (next (next here (creates refl)) (submits 0 false refl))

abbrev entry : Entry
entry = record { block = 0; period_msec = 100; handler = some 4 }

abbrev session : LogSession
session = record new_session { entries = entry ∷ [] }

abbrev idle_session : Session (Unit {0})
idle_session = record { log = idle_log; session = session }

entered : (aenter willing no_rates idle_session).0 ≡ ok tt
unfolding aenter
entered = refl

aenter-IsEntered_example :
    let t = (aenter willing no_rates idle_session).1 in
    (m : Mapping) × (t.session.id_mapping ≡ some m) × IsEntered (entry ∷ []) m t.log
aenter-IsEntered_example =
    aenter-IsEntered willing no_rates idle_session tt idle_log-IsReady refl entered

-- The block 0 has the number 0.
abbrev entered_blocks : ℕ → LogBlock
entered_blocks zero = record { id = some 0; disposer = some 0; items = []; struct = some [] }
entered_blocks (suc k) = empty_block

abbrev entered_log : Log (Unit {0})
entered_log = record idle_log { next_id = 1; blocks = entered_blocks }

abbrev entered_session : Session (Unit {0})
entered_session = record {
  log = entered_log;
  session = record session { stack = some (disposal (dispose_of 0) ∷ []); id_mapping = some [] };
}

aexit-clears_example :
    let t = (aexit willing no_rates entered_session).1 in
    (t.session.stack ≡ none)
    × (t.session.id_mapping ≡ none)
    × ((i : ℕ) → Disposes i (disposal (dispose_of 0) ∷ []) → (t.log.blocks i).id ≡ none)
aexit-clears_example =
    aexit-clears willing no_rates entered_session (disposal (dispose_of 0) ∷ []) refl

abbrev one_entry : Mapping
one_entry = (some 0, entry) ∷ []
