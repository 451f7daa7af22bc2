-- ===== src/Decimal.antt =====
-- Decimal integers as package strconv reads them and package fmt writes them: strconv.ParseInt and
-- strconv.Atoi at 64 bits, strconv.FormatInt, `%d`.
mod Defs
mod Laws
unfoldable pub use Defs.*
pub use Laws.*
