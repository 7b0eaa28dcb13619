-- ===== src/Compiler.antt =====
-- tilepo/compiler.py: from a `.tmem` plan to the intermediate representation.
pub mod Shards
pub mod Tiles
pub mod Ranges
pub mod Lower
pub mod Drivers
