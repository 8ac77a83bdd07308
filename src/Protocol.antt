-- ===== src/Protocol.antt =====
-- stm32_firmware/core-master/protocol.c: the main loop's line editor, what is done with a line, the
-- realtime commands picked out of the input stream, and the execution of overrides.
pub mod Line
pub mod Overrides
pub mod Drain
pub mod Limits
pub mod Toggles
pub mod Commands
pub mod Realtime
pub mod Picked
pub mod Routing
pub mod Emptied
pub mod Track
pub mod WholeLine
mod Examples
mod PickExamples
