-- ===== src/Mir.antt =====
-- tilepo/mir/schema.py and tilepo/mir/io.py: the intermediate representation of a model's tiles.
pub mod Enums
pub mod TileId
pub mod Formats
pub mod Model
pub mod Encode
pub mod Decode
pub mod RoundTrip
pub mod Documents
pub mod Validity
pub mod Manifest
