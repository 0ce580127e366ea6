-- ===== src/Ngram.antt =====
-- The ngrams of libursa/Utils.cpp: what is indexed of a file, and what is asked of an index.
pub mod Generators
pub mod Convert
pub mod Complete
pub mod Wide
pub mod Pack
pub mod Windows
pub mod Small
pub mod Count
pub mod Converted
