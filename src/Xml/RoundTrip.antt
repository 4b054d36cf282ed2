-- ===== src/Xml/RoundTrip.antt =====
-- What IOCFSerialize.c writes for an object, read by IOCFUnserialize.tab.c.
mod Ids
mod Tags
mod Tokens
mod Texts
mod Moves
mod Leaves
mod Routes
mod Containers
mod Elements
mod Fields
mod Sharing
mod Writing
mod Frames
mod Sequences
mod Trees
pub mod Whole
pub mod Forward
pub mod Depth
mod Tests
