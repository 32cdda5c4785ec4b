-- ===== src/Sanitizer.antt =====
-- VSSTypeSanitizer.cpp: checks a value against the data type, the limits and the enumeration of a
-- signal's metadata, and brings it into that type. An argument that the source takes by reference
-- and may overwrite is returned.
pub mod DataTypes
pub mod Numeric
pub mod Checks
pub mod Range
pub mod Arrays
