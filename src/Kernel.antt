-- ===== src/Kernel.antt =====
-- `class Kernel` (src/kernel/kernel.h, src/kernel/kernel.cpp): its state and its stages.
pub mod State
pub mod Build
pub mod Propagate
pub mod Context
pub mod Rebuild
pub mod Specific
pub mod Refine
pub mod Apply
