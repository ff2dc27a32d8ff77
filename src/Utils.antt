-- ===== src/Utils.antt =====
-- aiocflib/utils: helpers that the rest of the library is built on.
pub mod Chunks
pub mod Checksum
pub mod Toc
pub mod Addressing
pub mod Registry
pub mod Statistics
