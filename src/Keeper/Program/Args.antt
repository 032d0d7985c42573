-- ===== src/Keeper/Program/Args.antt =====
-- The argument that decides the chain's name.
use state_keeper.Prelude.{
  List, [], ◌∷◌, ◌++◌, ok, err, ◌≡◌, refl, Bool-cases, inl, inr, Text, codes, text_eq, arith,
  chain_needs_name,
}
use state_keeper.Keeper.Program.{chain_name_of}

-- Where the arguments are accepted, a further `--chain NAME` decides the name, whatever they said, and a
-- further bare `--chain` is refused.
pub chain_name_of-append :
    (args : List Text) (d x name : Text)
    → chain_name_of args d ≡ ok x
    → (chain_name_of (args ++ codes "--chain" ∷ name ∷ []) d ≡ ok name)
      × (chain_name_of (args ++ codes "--chain" ∷ []) d ≡ err chain_needs_name)
unfolding chain_name_of text_eq
chain_name_of-append [] d x name h = (refl, refl)
chain_name_of-append (a ∷ []) d x name h = elim (Bool-cases (text_eq a (codes "--chain"))) [
  | inl flag ↦ absurd (ground arith)
  | inr plain ↦ (rw plain refl, rw plain refl)
]
chain_name_of-append (a ∷ b ∷ rest) d x name h = elim (Bool-cases (text_eq a (codes "--chain"))) [
  | inl flag ↦
      let tail = chain_name_of-append rest b x name (ground arith) in
      (rw flag tail.0, rw flag tail.1)
  | inr plain ↦
      let tail = chain_name_of-append (b ∷ rest) d x name (ground arith) in
      (rw plain tail.0, rw plain tail.1)
]
