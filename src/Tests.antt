-- ===== src/Tests.antt =====
-- The theorems at concrete inputs. Children: a small engine that has the documented behaviour (Toy),
-- a chain with an open and its fold (Samples), a lane of the keeper (Lane), and the applications
-- (Tree, Chain, Epoch, Keeper, Settled, Tools), with the unit tests of the source (Recorded).
pub mod Toy
pub mod Samples
pub mod Lane
pub mod Tree
pub mod Chain
pub mod Grown
pub mod Doubled
pub mod Keeper
pub mod Tools
pub mod Epoch
pub mod Recorded
pub mod Settled
pub mod Stuck
