-- ===== src/Text.antt =====
-- Go strings as lists of code points, and the functions of Go's `strings` and `strconv` that the
-- program calls.
pub mod Basic
pub mod Search
pub mod Decimal
pub mod Paths
