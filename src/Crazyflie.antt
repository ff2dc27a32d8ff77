-- ===== src/Crazyflie.antt =====
-- aiocflib/crazyflie: the subsystems of a Crazyflie, as clients of the command exchange.
pub mod Names
pub mod Values
pub mod Client
pub mod Memory
pub mod Param
pub mod Log
