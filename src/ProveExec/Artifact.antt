-- ===== src/ProveExec/Artifact.antt =====
-- crates/prove-exec/build.rs: the guard of the vendored guest binary. A tool that hashes is a command of
-- the machine: what it prints when it exits well, or nothing.
use state_keeper.Prelude.{
  Bool, true, Option, none, some, List, [], ◌∷◌, Result, ok, guard, ok_or, ◌>>=◌, ◌>>◌, panic, ◌≡◌,
  ◌↔◌, refl, ap, ◌∙◌, >>=-eq-ok, guard-eq-ok, if◌then◌else◌, Text, codes, text_eq, text_eq_iff,
  is_whitespace, trim_start_of,
}
use state_keeper.Types.{Bytes}

abbrev pub expected_sha256 : Text
expected_sha256 = codes "6068e927e1d962783b9b144efd36395ac013f65011e1a1ba567858e735b1ccaa"

-- The characters up to the first blank.
unfoldable pub until_blank : Text → Text
until_blank [] = []
until_blank (c ∷ s) = let rest = until_blank s in if is_whitespace c then [] else c ∷ rest

abbrev pub some_word : Text → Option Text
some_word [] = none
some_word (c ∷ s) = some (c ∷ s)

-- `split_whitespace().next()`
unfoldable pub first_word : Text → Option Text
first_word s = some_word (until_blank (trim_start_of is_whitespace s))

-- The machine: its file system, as far as the script reads it, and its commands with their arguments.
pub record Machine : Type 0 where
  pub exists : Text → Bool
  pub read : Text → Result Bytes
  pub run : Text → List Text → Bytes → Option Text

abbrev pub then_word : Option Text → Option Text
then_word none = none
then_word (some out) = first_word out

-- `try_cmd`
abbrev pub try_cmd : Machine → Bytes → Text → List Text → Option Text
try_cmd m bytes prog args = then_word (m.run prog args bytes)

abbrev pub or_else_word : Option Text → Option Text → Option Text
or_else_word none o = o
or_else_word (some w) o = some w

-- A missing tool panics.
unfoldable pub sha256_hex : Machine → Bytes → Result Text
sha256_hex m bytes =
    ok_or
      (or_else_word (try_cmd m bytes (codes "sha256sum") (codes "-b" ∷ codes "-" ∷ []))
        (try_cmd m bytes (codes "shasum") (codes "-a" ∷ codes "256" ∷ codes "-b" ∷ codes "-" ∷ [])))
      panic

-- `main`, for the path of the binary below the workspace; the answer is the path that the build is given.
unfoldable pub guard_elf : Machine → Text → Result Text
guard_elf m elf_path = do
  guard (m.exists elf_path) panic
  bytes ← m.read elf_path
  digest ← sha256_hex m bytes
  guard (text_eq digest expected_sha256) panic
  ok elf_path

-- The binary is there, can be read, and one of the two tools prints the expected digest of its bytes.
pub record IsExpected (m : Machine) (elf_path : Text) : Type 0 where
  pub there : m.exists elf_path ≡ true
  pub bytes : Bytes
  pub was_read : m.read elf_path ≡ ok bytes
  pub digest : sha256_hex m bytes ≡ ok expected_sha256

expected_is_expected : text_eq expected_sha256 expected_sha256 ≡ true
expected_is_expected = (text_eq_iff expected_sha256 expected_sha256).1 refl

-- A build is given the binary exactly when it is there, can be read, and its digest, of the first tool that
-- answers, is the expected one.
pub guard_elf_iff :
    (m : Machine) (elf_path : Text) → (guard_elf m elf_path ≡ ok elf_path) ↔ IsExpected m elf_path
unfolding guard_elf
guard_elf_iff m elf_path = (
  λ h.
      let (_u, there, h1) = >>=-eq-ok (guard (m.exists elf_path) panic) _ h in
      let (bytes, was_read, h2) = >>=-eq-ok (m.read elf_path) _ h1 in
      let (digest, hashed, h3) = >>=-eq-ok (sha256_hex m bytes) _ h2 in
      let (_v, same, h4) = >>=-eq-ok (guard (text_eq digest expected_sha256) panic) _ h3 in
      record {
        there = guard-eq-ok _ panic there;
        bytes = bytes;
        was_read = was_read;
        digest = hashed ∙ ap ok ((text_eq_iff digest expected_sha256).0 (guard-eq-ok _ panic same));
      },
  λ x. rw (x.there, x.was_read, x.digest, expected_is_expected) refl,
)
