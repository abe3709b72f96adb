-- ===== src/Bindings.antt =====
-- bindings/types.go: the state carrier, the changes and events that come in, the rows that go out.
-- A Go string is a list of bytes (`Str`), a `time.Time` its Unix seconds.
pub mod State
pub mod Rows
pub mod Config
