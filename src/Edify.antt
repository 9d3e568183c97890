-- ===== src/Edify.antt =====
-- edify, the interpreter of updater-scripts: edify/expr.c and edify/expr.h.
pub mod State
pub mod Expr
pub mod Strings
pub mod Builtins
pub mod Operators
pub mod Laws
pub mod Runs
pub mod Ends
pub mod Errors
pub mod Scripts
pub mod Table
pub mod Substring
mod Tests
