-- ===== src/Go.antt =====
-- What the program uses of Go itself: int64 arithmetic, instants and durations, floats, and
-- printed numbers.
pub mod Int64
pub mod Time
pub mod Float
pub mod Decimal
pub mod Strings
pub mod Sort
