-- ===== src/Query.antt =====
-- internal/engine: the parts of the query language that are modelled.
pub mod Budget
pub mod Limits
pub mod Strings
pub mod Order
pub mod Arithmetic
mod Tests
