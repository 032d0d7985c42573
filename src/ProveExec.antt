-- ===== src/ProveExec.antt =====
-- crates/prove-exec: the guest's execution and its proof (src/lib.rs), and the guard of the guest's binary
-- (build.rs, in Artifact). The SP1 SDK is a parameter.
pub mod Artifact
pub mod Prove
use state_keeper.Prelude.{
  ℕ, Bool, true, false, not, Option, none, some, List, [], ◌∷◌, ◌++◌, Result, ok, err, guard, ◌>>=◌,
  ◌>>◌, if◌then◌else◌, Text, codes, text_eq, is_blank, trim, prover_not_permitted,
  network_key_unset,
}
use state_keeper.Types.{Bytes}
use state_keeper.Keeper.Env.{Env, var, set_var}

-- `SP1Stdin`, as the slices that are written to it.
abbrev pub Stdin : Type 0
Stdin = List Bytes

pub record Proof : Type 0 where
  pub proof_bytes : Bytes
  pub public_values : Bytes

-- The SDK on the guest's binary: the CPU client, and the client that the environment selects.
pub record Sp1 : Type 0 where
  pub execute : Stdin → Result Bytes
  pub setup : Env → Result (Unit {0})
  pub groth16_prove : Env → Stdin → Result Proof
  pub verify : Env → Proof → Bool

-- `write_slice`
abbrev pub write_slice : Stdin → Bytes → Stdin
write_slice stdin f = stdin ++ f ∷ []

abbrev pub write_slices : Stdin → List Bytes → Stdin
write_slices stdin [] = stdin
write_slices stdin (f ∷ fs) = write_slices (write_slice stdin f) fs

unfoldable pub stdin_from_frames : List Bytes → Stdin
stdin_from_frames frames = write_slices [] frames

unfoldable pub execute : Sp1 → List Bytes → Result Bytes
execute sp1 frames = sp1.execute (stdin_from_frames frames)

-- `SP1_PROVER` is unset or `network`.
abbrev pub permit_mode : Option Text → Result (Unit {0})
permit_mode none = ok tt
permit_mode (some mode) = guard (text_eq mode (codes "network")) (prover_not_permitted mode)

-- `map(|v| v.trim().is_empty()).unwrap_or(true)`
abbrev pub is_unset_or_blank : Option Text → Bool
is_unset_or_blank none = true
is_unset_or_blank (some v) = is_blank (trim v)

-- The pair of `applyState`'s arguments, and the environment after the call.
unfoldable pub prove_network : Sp1 → Env → List Bytes → Result ((Bytes × Bytes) × Env)
prove_network sp1 env frames = do
  permit_mode (var (codes "SP1_PROVER") env)
  guard (not (is_unset_or_blank (var (codes "NETWORK_PRIVATE_KEY") env))) network_key_unset
  env' ← set_var (codes "SP1_PROVER") (codes "network") env
  sp1.setup env'
  proof ← sp1.groth16_prove env' (stdin_from_frames frames)
  -- either answer of the local verification is only printed
  let _verified : Bool = sp1.verify env' proof
  ok ((proof.proof_bytes, proof.public_values), env')
