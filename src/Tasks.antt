-- ===== src/Tasks.antt =====
-- stm32_firmware/core-master/grbllib.c: the tasks of the foreground process, in lists over a pool.
pub mod Pool
pub mod Run
pub mod Count
pub mod Sound
pub mod Kept
pub mod Order
pub mod Due
pub mod Tick
mod Examples
