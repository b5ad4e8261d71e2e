-- ===== src/Display.antt =====
-- What the console writes for wire values: the helpers of web/src/lib, and the lists of reasons.
pub mod Labels
pub mod Status
pub mod Reasons
