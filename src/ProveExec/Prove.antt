-- ===== src/ProveExec/Prove.antt =====
-- When `prove_network` answers a proof.
use state_keeper.Prelude.{
  false, not, Option, none, some, List, [], ◌∷◌, ◌++◌, append_assoc, append-nil, ok, guard,
  guard-eq-ok, >>=-eq-ok, ok-injective, ◌≡◌, ◌⊎◌, ◌↔◌, refl, sym, ap, ap₂, ◌∙◌, inl, inr, arith,
  Text, codes, text_eq, text_eq_iff, prover_not_permitted, network_key_unset,
}
use state_keeper.Types.{Bytes}
use state_keeper.Keeper.Env.{Env, var, set_var}
use state_keeper.ProveExec.{
  Sp1, Stdin, Proof, write_slices, stdin_from_frames, permit_mode, is_unset_or_blank, prove_network,
}

write_slices-append : (stdin : Stdin) (fs : List Bytes) → write_slices stdin fs ≡ stdin ++ fs
write_slices-append stdin [] = sym (append-nil stdin)
write_slices-append stdin (f ∷ fs) =
    write_slices-append (stdin ++ f ∷ []) fs ∙ append_assoc stdin (f ∷ []) fs

-- The guest reads the frames, each once, in their order.
stdin_from_frames_lem : (fs : List Bytes) → stdin_from_frames fs ≡ fs
unfolding stdin_from_frames
stdin_from_frames_lem fs = write_slices-append [] fs

abbrev pub prover_var : Text
prover_var = codes "SP1_PROVER"

abbrev pub key_var : Text
key_var = codes "NETWORK_PRIVATE_KEY"

-- The environment with the network as the prover.
abbrev pub on_network : Env → Env
on_network env = (prover_var, codes "network") ∷ env

-- The environment permits the network and holds its key, and the network's client has proved the
-- frames.
pub record IsProven (sp1 : Sp1) (env : Env) (frames : List Bytes) (p : Bytes × Bytes) : Type 0 where
  pub mode : (var prover_var env ≡ none) ⊎ (var prover_var env ≡ some (codes "network"))
  pub key : is_unset_or_blank (var key_var env) ≡ false
  pub ready : sp1.setup (on_network env) ≡ ok tt
  pub proof : Proof
  pub proven : sp1.groth16_prove (on_network env) frames ≡ ok proof
  pub answer : (proof.proof_bytes, proof.public_values) ≡ p

set_network : (env : Env) → set_var prover_var (codes "network") env ≡ ok (on_network env)
unfolding set_var
set_network env = refl

permit_mode-ok :
    (o : Option Text) {u : Unit {0}}
    → permit_mode o ≡ ok u
    → (o ≡ none) ⊎ (o ≡ some (codes "network"))
permit_mode-ok none h = inl refl
permit_mode-ok (some mode) h =
    inr (
      ap some
        ((text_eq_iff mode (codes "network")).0 (guard-eq-ok _ (prover_not_permitted mode) h)))

permitted : (o : Option Text) → (o ≡ none) ⊎ (o ≡ some (codes "network")) → permit_mode o ≡ ok tt
permitted o (inl h) = rw h refl
permitted o (inr h) = rw h (unfold text_eq in refl)

-- `prove_network` answers a proof exactly when the prover's mode is unset or the network, the network's key
-- is not blank, and the network's client is set up and proves the frames; the environment then selects
-- the network. The local verification has no part in it.
pub prove_network_iff :
    (sp1 : Sp1) (env : Env) (frames : List Bytes) (p : Bytes × Bytes)
    → (prove_network sp1 env frames ≡ ok (p, on_network env)) ↔ IsProven sp1 env frames p
unfolding prove_network
prove_network_iff sp1 env frames p = (
  λ h.
      let (_m, mode, h1) = >>=-eq-ok (permit_mode (var prover_var env)) _ h in
      let (_k, key, h2) =
        >>=-eq-ok (guard (not (is_unset_or_blank (var key_var env))) network_key_unset) _ h1 in
      let (env', chosen, h3) = >>=-eq-ok (set_var prover_var (codes "network") env) _ h2 in
      let (_s, ready, h4) = >>=-eq-ok (sp1.setup env') _ h3 in
      let (proof, proven, h5) =
        >>=-eq-ok (sp1.groth16_prove env' (stdin_from_frames frames)) _ h4 in
      let same : env' ≡ on_network env = ok-injective (sym chosen ∙ set_network env) in
      record {
        mode = permit_mode-ok (var prover_var env) mode;
        key = ground (arith, guard-eq-ok _ network_key_unset key);
        ready = ap sp1.setup (sym same) ∙ ready;
        proof = proof;
        proven =
            ap₂ (λ x y. sp1.groth16_prove x y) (sym same) (sym (stdin_from_frames_lem frames))
            ∙ proven;
        answer = ap (λ (x : (Bytes × Bytes) × Env). x.0) (ok-injective h5);
      },
  λ m.
      rw
        (
          permitted (var prover_var env) m.mode,
          m.key,
          set_network env,
          m.ready,
          stdin_from_frames_lem frames,
          m.proven,
        )
        (ap (λ q. ok (q, on_network env)) m.answer),
)
