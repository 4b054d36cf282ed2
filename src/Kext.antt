-- ===== src/Kext.antt =====
-- kext.subproj/OSKext.c: kernel extensions, the record of those with one identifier and which of them
-- a request finds, the resolution of dependencies, and the order in which a kext and its dependencies
-- are loaded.
pub mod Identifiers
pub mod LoadList
pub mod LoadInfo
pub mod Resolve
