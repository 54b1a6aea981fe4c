-- ===== src/Segments.antt =====
-- The segment cache of gruvax/estimator/segment_cache.py, in the order of the steps of `derive`.
pub mod Fractions
pub mod Assign
pub mod Bins
pub mod Derive
