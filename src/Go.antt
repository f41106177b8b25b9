-- ===== src/Go.antt =====
-- What the program uses of Go's standard library: bytes and strings, strconv, encoding/binary,
-- net/http's Header. Each function follows its documentation on byte strings.
pub mod Strings
pub mod Strconv
pub mod Header
pub mod Endian
pub mod Panic
pub mod Json
pub mod Dict
