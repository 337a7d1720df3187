-- ===== src/Go.antt =====
-- What the program uses of Go itself: results and effects, maps, sets and strings.
pub mod Exec
pub mod Map
pub mod Strings
pub mod Sets
pub mod Loop
pub mod Path
pub mod Sort
pub mod Strconv
