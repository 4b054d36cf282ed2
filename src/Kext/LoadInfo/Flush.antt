-- ===== src/Kext/LoadInfo/Flush.antt =====
-- Clearing the flag "has all dependencies" in kext.subproj/OSKext.c, and flushing dependencies.
pub mod Clearing
pub mod Ending
pub mod Frame
pub mod Consistency
pub mod All
