-- ===== src/Js.antt =====
-- What the sources use of the language: texts, maps, numbers, and fallible code.
pub mod Text
pub mod Split
pub mod Trimmed
pub mod Distinct
pub mod Map
pub mod Result
pub mod Exec
pub mod Date
pub mod Number
pub mod Value
pub mod Hex
pub mod Url
