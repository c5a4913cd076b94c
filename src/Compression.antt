-- ===== src/Compression.antt =====
-- graphite-core/src/compression: the encoders of the columns of an SSTable.
pub mod Dictionary
pub mod Rle
pub mod Gorilla
pub mod Delta
