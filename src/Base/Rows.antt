-- ===== src/Base/Rows.antt =====
-- Lemmas on lists of rows under Boolean tests: the names of the two parts.
mod Counting
mod Every
pub use Counting.*
pub use Every.*
