-- ===== src/FileIndex.antt =====
-- The list of the files of a dataset: `OnDiskFileIndex` (libursa/OnDiskFileIndex.cpp), and the file
-- of names that `DatasetBuilder::save` and `OnDiskDataset::merge` write for it. A name is the list
-- of its bytes.
pub mod Names
pub mod Lookup
pub mod Pop
