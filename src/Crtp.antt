-- ===== src/Crtp.antt =====
-- aiocflib/crtp: packets of the Crazy RealTime Protocol, their dispatcher, the command exchange of a
-- device, and the strategies of the radio link.
pub mod Port
pub mod Packet
pub mod Strategies
pub mod SafeLink
pub mod Dispatcher
pub mod Command
