-- ===== src/Didsimport.antt =====
-- internal/didsimport: the bulk import of numbers.
pub mod Prefixes
pub mod Worker
pub mod Parsers
pub mod Csv
pub mod Numbers
pub mod Headers
pub mod Ranges
pub mod Imported
pub mod Examples
mod Readings
