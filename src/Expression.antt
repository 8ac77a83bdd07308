-- ===== src/Expression.antt =====
-- stm32_firmware/core-master/ngc_expr.c: expressions of G-code programs in brackets, with the readers
-- of numbers of nuts_bolts.c.
pub mod Types
pub mod Number
pub mod Operators
pub mod Unary
pub mod Stack
pub mod Values
pub mod Read
pub mod Tree
pub mod Digits
pub mod Decimal
pub mod Names
pub mod Loop
pub mod Chosen
pub mod Operand
pub mod Forms
pub mod Arc
pub mod Shape
pub mod Level
pub mod RoundTrip
pub mod Rising
pub mod Depth
pub mod Format
pub mod Message
pub mod Progress
pub mod Ends
pub mod Total
pub mod Name
pub mod Flow
mod Examples
mod FlowExamples
