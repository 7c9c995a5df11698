-- ===== src/Examples.antt =====
-- Concrete inputs on which the theorems with hypotheses apply.
pub mod Graphs
pub mod Loops
pub mod Tables
pub mod Terms
pub mod Strings
pub mod Intervals
pub mod Mixed
