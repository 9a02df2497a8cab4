-- ===== src/Selection.antt =====
-- Selection (src/selection.rs): its sources, budgets and errors in Sources, the baseline selector in
-- Baseline, and `select_sources` in Select.
pub mod Sources
pub mod Baseline
pub mod Select
pub mod Exact
