-- ===== src/Stdlib.antt =====
-- Go's standard library, as far as the service calls it: `strconv.Atoi`, `strconv.ParseFloat` and
-- `time.Parse`. A text is the list of its bytes; the parsers refuse what is not ASCII.
mod Digits
pub mod Atoi
pub mod ParseFloat
pub mod ParseTime
pub use Digits.*
