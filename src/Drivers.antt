-- ===== src/Drivers.antt =====
-- aiocflib/drivers: the value classes of the drivers.
pub mod Configuration
