-- ===== src/FlowCtrl.antt =====
-- stm32_firmware/core-master/ngc_flowctrl.c: O-word statements. First the data and the operations
-- (Types to Exec), then the invariant of the statement stack, and then what statements do together.
pub mod Types
pub mod Stack
pub mod Branch
pub mod Loop
pub mod Subs
pub mod Command
pub mod Exec
pub mod Valid
pub mod Branches
pub mod Loops
pub mod Calls
pub mod Invariant
pub mod Keyword
pub mod Rounds
pub mod Chain
pub mod Errors
mod Examples
