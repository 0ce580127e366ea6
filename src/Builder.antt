-- ===== src/Builder.antt =====
-- The index builders of libursa: BitmapIndexBuilder.cpp and FlatIndexBuilder.cpp.
pub mod Size
pub mod Bitmap
pub mod Bits
pub mod BitmapRuns
pub mod BitmapSave
pub mod Radix
pub mod Buckets
pub mod CountSort
pub mod RadixSort
pub mod Sorted
pub mod Flat
pub mod FlatRuns
pub mod Skip
pub mod FlatSave
pub mod FlatFiles
pub mod FlatRoom
pub mod FlatAnswers
pub mod BitmapAnswers
