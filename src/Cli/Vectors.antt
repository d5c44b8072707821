-- ===== src/Cli/Vectors.antt =====
-- The registers that src/tools/sdb.cpp cannot write: those of a vector format.
use building_a_debugger.Common.{
  ℕ, ◌≡◌, ◌≢◌, refl, ap, ◌⊎◌, inl, inr, ◌||◌, List, [], ◌∷◌, ◌==◌, Run, ok, throws, undefined,
  ◌>>=◌, Bool-cases, invalid_format,
}
use building_a_debugger.Parse.{parse_vector_sized}
use building_a_debugger.Parse.Vectors.{parse_vector_sized-fail}
use building_a_debugger.Registers.{array}
use building_a_debugger.Registers.Table.{
  RegisterInfo, RegisterFormat, uint, double_float, long_double, vector, register_info_by_name,
}
use building_a_debugger.Process.State as S
use building_a_debugger.Process.State.{Env, Outcome, done, raised, unspecified, pure}
use building_a_debugger.Cli.{Session}
use building_a_debugger.Cli.Values.{
  FloatReader, parse_register_value, parse_by_format, parse_array, or_invalid,
}
use building_a_debugger.Cli.Registers.{write_text, handle_register_write, catch_all_errors}

-- The bytes of a vector are never there, and what follows is an exception or undefined.
no_array :
    (size : ℕ) (text : List ℕ)
    → (or_invalid (parse_array size text) ≡ throws invalid_format)
      ⊎ (or_invalid (parse_array size text) ≡ undefined)
no_array size text = after (parse_vector_sized size text) (parse_vector_sized-fail size text)
  where
    after :
        (r : Run (List ℕ))
        → ((out : List ℕ) → r ≢ ok out)
        → (or_invalid (r >>= λ bytes. ok (record { kind = array; bytes = bytes }))
            ≡ throws invalid_format)
          ⊎ (or_invalid (r >>= λ bytes. ok (record { kind = array; bytes = bytes })) ≡ undefined)
    after (ok bytes) h = absurd (h bytes refl)
    after (throws e) h = inl refl
    after undefined h = inr refl

parse_register_value-vector :
    (floats : FloatReader) (info : RegisterInfo) (text : List ℕ)
    → info.format ≡ vector
    → (parse_register_value floats info text ≡ throws invalid_format)
      ⊎ (parse_register_value floats info text ≡ undefined)
unfolding parse_register_value parse_by_format
parse_register_value-vector floats info text e = by_format info.format e
  where
    by_format :
        (format : RegisterFormat)
        → format ≡ vector
        → (or_invalid (parse_by_format floats (record info { format = format }) text)
            ≡ throws invalid_format)
          ⊎ (or_invalid (parse_by_format floats (record info { format = format }) text) ≡ undefined)
    by_format vector h = elim (Bool-cases (info.size == 8 || info.size == 16)) [
      | inl sized ↦ rw sized (no_array info.size text)
      | inr other ↦ rw other (inl refl)
    ]
    by_format uint h = cc
    by_format double_float h = cc
    by_format long_double h = cc

module _ {K : Type 0} (env : Env K) (floats : FloatReader) where
  write_text-vector :
      (info : RegisterInfo) (name text : List ℕ) (s : Session K)
      → register_info_by_name env.layout name ≡ ok info
      → info.format ≡ vector
      → (write_text env floats name text s ≡ raised invalid_format s)
        ⊎ (write_text env floats name text s ≡ unspecified)
  unfolding write_text
  write_text-vector info name text s found e =
      elim (parse_register_value-vector floats info text e) [
        | inl t ↦ inl (rw (found, S.◌>>=◌, t) refl)
        | inr t ↦ inr (rw (found, S.◌>>=◌, t) refl)
      ]

  -- A register of the vector format, such as xmm0, cannot be written from the command line: whatever
  -- the text of the value, the handler of `register write` returns and changes nothing, or has run
  -- into undefined behaviour.
  pub handle_register_write-vector :
      (info : RegisterInfo) (command verb name text : List ℕ) (s : Session K)
      → register_info_by_name env.layout name ≡ ok info
      → info.format ≡ vector
      → (handle_register_write env floats (command ∷ verb ∷ name ∷ text ∷ []) s ≡ done tt s)
        ⊎ (handle_register_write env floats (command ∷ verb ∷ name ∷ text ∷ []) s ≡ unspecified)
  unfolding handle_register_write
  handle_register_write-vector info command verb name text s found e =
      elim (write_text-vector info name text s found e) [
        | inl t ↦ inl (ap (catch_all_errors (pure tt)) t)
        | inr t ↦ inr (ap (catch_all_errors (pure tt)) t)
      ]
