-- ===== src/Codec.antt =====
-- libursa/Utils.cpp and libursa/Utils.h: the variable length coding of runs, by `RunWriter` (to a
-- stream), `PosixRunWriter` (to a file descriptor, with a buffer) and the readers of it.
pub mod Bytes
pub mod Reader
pub mod Writer
pub mod Posix
pub mod Flushed
pub mod Encoding
pub mod RoundTrip
pub mod Iterator
pub mod Wrote
pub mod RawCopy
