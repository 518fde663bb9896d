-- ===== src/Python.antt =====
-- What the program uses of Python: exceptions, actions on an object, dictionaries, `Any` values.
pub mod Exec
pub mod Returns
pub mod Dict
pub mod Values
pub mod Floats
