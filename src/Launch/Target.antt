-- ===== src/Launch/Target.antt =====
-- src/target.cpp, and GetAuxiliaryVector of src/process.cpp.
use building_a_debugger.Common.{
  ℕ, ◌%◌, ◌^◌, true, List, [], ◌∷◌, ◌==◌, if◌then◌else◌, Option, Run, ok, throws, undefined,
}
use building_a_debugger.Common.Int.{ℤ}
use building_a_debugger.Elf.{Elf, create_loaded_elf}
use building_a_debugger.Process.State.{Env, Outcome, done, raised, unspecified, ◌>>=◌}
use building_a_debugger.Launch.{System, Owned, end_process, launch, attach}

-- GetAuxiliaryVector, over the words of the file. Without AT_NULL the loop does not end. The key is
-- an `int`.
unfoldable pub get_auxiliary_vector : List ℕ → Run (List (ℕ × ℕ))
get_auxiliary_vector [] = undefined
get_auxiliary_vector (id ∷ []) = if id == 0 then ok [] else undefined
get_auxiliary_vector (id ∷ value ∷ words) =
    let rest = get_auxiliary_vector words in
    if id == 0 then ok [] else elim rest [ ok pairs ↦ ok ((id % 2 ^ 32, value) ∷ pairs) | r ↦ r ]

-- The map: a later value takes the place of an earlier one, and a missing key gives 0.
unfoldable pub value_at : ℕ → ℕ → List (ℕ × ℕ) → ℕ
value_at key held [] = held
value_at key held ((id, value) ∷ pairs) = value_at key (if id == key then value else held) pairs

abbrev pub at_entry : ℕ
at_entry = 9

pub record Target (K : Type 0) : Type 0 where
  pub owner : Owned K
  pub elf : Elf

-- CreateLoadedElf, from the file's words and the opened ELF file. An exception of either ends the
-- process.
unfoldable pub create_target :
    {K : Type 0} → System K → Run Elf → Owned K → K → Outcome K (Target K)
unfolding get_auxiliary_vector value_at end_process
create_target system opened o k = elim (get_auxiliary_vector (system.auxiliary_words o.pid k)) [
  | undefined ↦ unspecified
  | throws e ↦ raised e (end_process system o)
  | ok pairs ↦ elim opened [
    | undefined ↦ unspecified
    | throws e ↦ raised e (end_process system o)
    | ok elf ↦
        done (record { owner = o; elf = create_loaded_elf (value_at at_entry 0 pairs) elf }) k
  ]
]

module _ {K : Type 0} (system : System K) (env : ℤ → Env K) (fuel : ℕ) (unset : ℕ → ℕ) where
  -- Target::Launch and Target::Attach, with what opening the file of the program gives.
  unfoldable pub launch_target : List ℕ → Option ℕ → Run Elf → K → Outcome K (Target K)
  unfolding launch create_target
  launch_target path stdout_replacement opened =
      launch system env fuel unset path true stdout_replacement >>= create_target system opened

  unfoldable pub attach_target : ℤ → Run Elf → K → Outcome K (Target K)
  unfolding attach create_target
  attach_target pid opened = attach system env fuel unset pid >>= create_target system opened
