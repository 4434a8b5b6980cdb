-- ===== src/Estl.antt =====
-- src/estl.h: `simplevec`, its comparisons, `find`, and the smart pointers.
pub mod Slots
pub mod Size
pub mod Blocks
pub mod Loops
pub mod Moves
pub mod Shifts
pub mod Holds
pub mod Ends
pub mod Inside
pub mod Middle
pub mod Gap
pub mod Copies
pub mod Compare
pub mod Orders
pub mod Inserts
pub mod Build
pub mod Vec
pub mod Scoped
pub mod Simple
