-- ===== src/LargeFile.antt =====
-- file/largefile: how a large file is cut into blocks, and which of its blocks are done.
pub mod Range
pub mod ByteRanges
