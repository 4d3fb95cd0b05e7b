-- ===== src/Go.antt =====
-- What the sources use of Go's standard library: instants and durations, texts, errors, and the
-- parsers of durations and of "%d.%d".
pub mod Time
pub mod Text
pub mod Error
pub mod Scan
pub mod ParseDuration
pub mod Flag
