-- ===== src/Num.antt =====
-- The arithmetic of Python's `float` and `decimal.Decimal`, as an interface. The program's code is
-- read over any type that has it; `Num/Fixed.antt` has a type on which everything runs.
mod Order
mod Fixed
mod Convert
unfoldable pub use Order.*
pub use Fixed.*
pub use Convert.*
