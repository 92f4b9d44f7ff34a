-- ===== src/Decoder.antt =====
-- decoder.go, token.go, errors.go: the token stream, its state and its errors.
pub mod Stack
pub mod Position
pub mod Options
pub mod State
pub mod Spaces
pub mod Strings
pub mod Keys
pub mod Values
pub mod Read
pub mod Steady
pub mod Kept
pub mod Turns
pub mod Mark
pub mod Ends
pub mod StringEnds
pub mod KeyEnds
mod Examples
