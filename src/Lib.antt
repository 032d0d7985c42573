-- ===== src/Lib.antt =====
-- The public keeper of a state tree that a contract holds as a root: it rebuilds the tree from the
-- chain's events, predicts the next advance, and submits a proof of it.
--
-- The parts, in the order in which they work together:
--   * Events, Scan, Pv: crates/crx-tree/src/{events,scan,pv}.rs. `scan` reads the logs of the core
--     in ranges of blocks (Scan/Chunks), sorts and decodes them (Scan/Logs), checks each open's
--     identity (Events) and recovers its signatures from calldata (Scan/Signatures); a fold's public
--     values are decoded by Pv. The result is a `ChainHistory`.
--   * Replay: crates/crx-tree/src/replay.rs. `rebuild` replays each fold: `fold_inputs` recovers the
--     epoch's inputs (Replay/Inputs, Replay/Open), `resolve_epoch` runs the guest's pipeline
--     (Replay/Resolve), and the committed roots are asserted (Replay/Rebuild; Advance and Growth there
--     are about a fold that lands and a history that grows).
--   * Frames: crates/crx-tree/src/frames.rs. `build_advance_frames` resolves the next epoch, steps two
--     keyed trees account by account and encodes the guest's 13 frames.
--   * Keeper, Gate: crates/state-keeper/src/{main,chain,submit,gate}.rs. `main` reads the environment
--     file (Keeper/Env) and the arguments (Keeper/Program) and runs a command in the context of a lane
--     (Keeper/Chain, Keeper/Context; the table's file is loaded there as in crates/crx-tree/src/lib.rs).
--     The commands that only read are in Keeper/Commands. `cmd_advance` runs at most three rounds
--     (Keeper/Advance); a round (Keeper/Attempt) takes the inputs of the next epoch (Keeper/Fresh),
--     asks the guest and the prover, and broadcasts once (Keeper/Submit). A round is a function of the
--     answers that it meets and yields the trace of what it asks. Keeper/Plain is about
--     histories on which advances land one after the other. Gate/Messages prints a refusal.
--   * ProveExec: crates/prove-exec/src/lib.rs, the calls of the prover behind the keeper's two paid
--     steps, and crates/prove-exec/build.rs, the guard of the guest binary (ProveExec/Artifact).
--   * Types, Engine: the wire types of crates/vendor/im-types, and the vendored engine as a parameter,
--     a record of its functions. Engine/Laws states the documented behaviour that the keeper relies
--     on, and Engine/Order that the order of positions does not matter, as hypotheses of the theorems
--     that need them. Tests/Toy is an engine that has it all.
--   * Prelude, BTreeMap: results with named errors, bytes, integers; ordered maps as their entries.
--
-- How the code is rendered: functions keep their names, records their fields. A byte array of
-- fixed width is its big-endian number, which keeps equality and order; `Vec<u8>` is a list of
-- numbers. A string is the list of its code points (Prelude/Strings). An error message is a
-- constructor of `Error`, and a panic is the error `panic`. A BTreeMap is its list of entries in
-- ascending order. Unsigned subtraction, saturation and `i128` ranges are written out. alloy
-- (provider, ABI decoders, address parser), bincode, serde, hex, keccak and the SP1 SDK are
-- parameters: Codecs gathers the decoders and parsers, World the answers of one round. A provider
-- is read at one state of the chain: a call's answer depends on its arguments alone; each round
-- of the keeper has answers of its own.
--
-- Fuel: the loop over block ranges takes one round for each chunk and has fuel `head + 2`, more than
-- there are blocks, so it never runs out. The loop of `cmd_advance` has its bound of three rounds from
-- the source. Every other loop is over a list.
--
-- Not modelled: the arithmetic and the tree of the vendored engine (crates/vendor), which are parameters;
-- what the keeper prints and logs; the insides of alloy, serde, bincode, hex and the SP1 SDK.
pub mod Gate
pub mod Prelude
pub mod BTreeMap
pub mod Types
pub mod Engine
pub mod Events
pub mod Pv
pub mod Scan
pub mod Replay
pub mod Frames
pub mod Keeper
pub mod ProveExec
pub mod Tests
