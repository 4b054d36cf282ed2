-- ===== src/Xml.antt =====
-- The texts of property lists: what IOCFSerialize.c writes for a string, for data and for a number, and how the
-- scanner of IOCFUnserialize.tab.c reads it.
pub mod Text
pub mod Data
pub mod Number
pub mod Objects
pub mod Serialize
pub mod Tag
pub mod Strtol
pub mod Values
pub mod Lexer
pub mod Tables
pub mod Build
pub mod Unserialize
pub mod RoundTrip
pub mod View
