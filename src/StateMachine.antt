-- ===== src/StateMachine.antt =====
-- stm32_firmware/core-master/state_machine.c: the state of the machine, the handlers that wait for an
-- event in each state, holds, and the parking of the tool while the safety door is open.
pub mod Types
pub mod Simple
pub mod Hold
pub mod Parking
pub mod Events
pub mod Resume
pub mod Update
pub mod Coherent
pub mod Reach
pub mod Door
pub mod Jog
pub mod Traps
pub mod Resumed
pub mod Examples
