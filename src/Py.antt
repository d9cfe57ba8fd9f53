-- ===== src/Py.antt =====
-- What the modelled code uses of Python itself: exceptions, statements that mutate an object,
-- `str`, `int`, `dict`, and the iteration over a dict that is changed on the way.
pub mod Exec
pub mod Str
pub mod Int
pub mod Dict
pub mod Result
pub mod Number
pub mod Utf8
