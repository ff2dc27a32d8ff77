-- ===== src/Crazyflie/Client.antt =====
-- What the handlers of a Crazyflie's subsystems hold of it, for aiocflib/crazyflie/param.py and
-- aiocflib/crazyflie/log.py. `S` is the state of the device and of the cache of tables, `F` the type of
-- Python's floats.
use aiocflib.Prelude.{Option, Bytes}
use aiocflib.Prelude.Exec.{Exec}
use aiocflib.Crtp.Command.{Request}
use aiocflib.Utils.Toc.Namespaces.{TocCache}
use aiocflib.Crazyflie.Values.{Floats}

-- `_crazyflie` and `_cache`
pub record Crazyflie (S F : Type 0) : Type 0 where
  pub run_command : Request → Exec S Bytes
  pub cache : Option (TocCache S)
  pub floats : Floats F
