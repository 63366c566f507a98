-- ===== src/Context/Output.antt =====
-- What `setOutputFileName` of context/ElectrosenseContext.cpp makes of its argument.
use es_sensor.Prelude.{
  ◌≡◌, refl, ◌≢◌, ℕ, none, some, List, [], ◌∷◌, arith, Text, codes, text_eq_iff, All,
}
use es_sensor.Context.{Context, output_type_byte, output_type_float}
use es_sensor.Context.Split.{split}
use es_sensor.Context.SplitLaws.{Lacks, join, split-join, split_alone}
use es_sensor.Context.Set.{set_output_file_name, set_split_output, set_typed_output}

module _ {F : Type 0} where
  abbrev with_output : Context F → ℕ → Text → Context F
  with_output c kind name = record c { output_type = kind; output_file_name = name }

  cons-output :
      (x : ℕ) (xs : Text) (ws : List Text) (c : Context F)
      → split b':' (x ∷ xs) ≡ ws
      → set_output_file_name (x ∷ xs) c ≡ set_split_output ws (x ∷ xs) c
  unfolding set_output_file_name
  cons-output x xs ws c e = rw e

  join-output :
      (t kind name : Text) (more : List Text) (c : Context F)
      → split b':' t ≡ kind ∷ name ∷ more
      → set_output_file_name t c ≡ set_typed_output kind name c
  unfolding set_split_output split
  join-output [] kind name more c e = cc
  join-output (x ∷ xs) kind name more c e = cons-output x xs (kind ∷ name ∷ more) c e

  -- `kind:name` selects the output format by its first field: BYTE and FLOAT are accepted, anything
  -- else makes the program exit, and only the second field is taken for the file's name, whatever
  -- follows a further colon.
  pub set_output_file_name-join :
      (kind name : Text) (more : List Text) (c : Context F)
      → All (Lacks b':') (kind ∷ name ∷ more)
      → let result = set_output_file_name (join b':' (kind ∷ name ∷ more)) c in
        (kind ≡ codes "BYTE" → result ≡ some (with_output c output_type_byte name))
        × (kind ≡ codes "FLOAT" → result ≡ some (with_output c output_type_float name))
        × (kind ≢ codes "BYTE" → kind ≢ codes "FLOAT" → result ≡ none)
  unfolding set_typed_output
  set_output_file_name-join kind name more c a =
      rw (join-output _ kind name more c (split-join b':' kind (name ∷ more) a))
        (ground (arith, text_eq_iff kind (codes "BYTE"), text_eq_iff kind (codes "FLOAT")))

  -- Without a colon the whole argument is the file's name and the format is BYTE; an empty argument
  -- changes nothing.
  pub set_output_file_name_plain :
      (name : Text) (c : Context F)
      → Lacks b':' name
      → (name ≡ [] → set_output_file_name name c ≡ some c)
        × (name ≢ [] → set_output_file_name name c ≡ some (with_output c output_type_byte name))
  unfolding set_output_file_name set_split_output
  set_output_file_name_plain [] c a = (λ _. refl, λ h. absurd (h refl))
  set_output_file_name_plain (x ∷ xs) c a =
      (λ e. cc, λ _. cons-output x xs ((x ∷ xs) ∷ []) c (split_alone b':' (x ∷ xs) a))
