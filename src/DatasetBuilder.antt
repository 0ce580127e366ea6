-- ===== src/DatasetBuilder.antt =====
-- `DatasetBuilder` (libursa/DatasetBuilder.cpp): the files of a dataset that is built, and an index
-- builder of every type.
pub mod Build
pub mod Held
