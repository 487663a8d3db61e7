-- ===== src/Python.antt =====
-- What the scripts use of Python itself: exceptions, floating-point values, JSON values and text.
pub mod Dict
pub mod Error
pub mod Exec
pub mod Float
pub mod Json
pub mod Loop
pub mod Text
