-- ===== src/Effects.antt =====
-- What the program touches outside its own variables, and the monad that its methods run in.
pub mod Failure
pub mod World
pub mod Action
pub mod Cases
