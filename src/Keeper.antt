-- ===== src/Keeper.antt =====
-- crates/state-keeper: the one-step keeper. The chain, the prover and the clock answer from outside;
-- their answers are parameters. Children: the environment (Env), the lane and the chain's state
-- (Chain), the context of a command (Context), the inputs of the next epoch (Fresh), one broadcast
-- (Submit), the rounds of an advance (Attempt, Advance), plain histories of many advances (Plain),
-- what backs the tree (Backed), the other commands (Commands) and `main` (Program).
pub mod Env
pub mod Backed
pub mod Chain
pub mod Context
pub mod Fresh
pub mod Plain
pub mod Submit
pub mod Attempt
pub mod Advance
pub mod Commands
pub mod Program
