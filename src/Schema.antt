-- ===== src/Schema.antt =====
-- The rows of the database (src/common/database/schema) and the enums of their columns. Identifiers
-- (uuids) are numbers, times are milliseconds, amounts are paise, multipliers are hundredths,
-- coordinates are millionths of a degree.
mod Enums
mod Rows
unfoldable pub use Enums.*
pub use Rows.*
