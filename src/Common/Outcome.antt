-- ===== src/Common/Outcome.antt =====
-- Results of code that can throw `sdb::Error`, and of code whose behaviour C++ leaves undefined.
use mathlib.Core.List.{List}
use Prim.Native.Nat.{ℕ}
use mathlib.Core.Option.{Option, none, some}
use mathlib.Core.Path.{◌≡◌, refl}
use mathlib.Core.Logic.{◌≢◌}

-- The calls of `Error::Send` and `Error::SendErrno`, one name for each message, and the
-- standard exceptions that the code can raise.
pub data Error : Type 0 where
  unrecognized_form only_dwarf32 only_version_4 invalid_address_size : Error
  invalid_address_type invalid_offset_type invalid_block_type invalid_integer_type : Error
  invalid_string_type invalid_reference_type no_low_pc no_high_pc attribute_not_found : Error
  invalid_stop_point_id stop_point_not_found already_created not_aligned : Error
  invalid_stoppoint_mode invalid_stoppoint_size no_free_debug_register : Error
  unexpected_register_size no_register_info invalid_format no_such_syscall : Error
  could_not_read_memory failed_to_write_memory could_not_write_user_area : Error
  could_not_write_fprs could_not_read_registers could_not_read_debug_register : Error
  enabling_failed disabling_failed could_not_single_step could_not_resume : Error
  waitpid_failed siginfo_failed : Error
  invalid_address_format invalid_number_of_bytes invalid_breakpoint_argument : Error
  invalid_instruction_count : Error
  pipe_creation_failed could_not_read_from_pipe set_options_failed : Error
  invalid_pid could_not_attach : Error
  child_failed : List ℕ → Error
  out_of_range bad_optional_access bad_variant_access : Error

pub data Run {ℓ} (A : Type ℓ) : Type ℓ where
  ok : A → Run A
  throws : Error → Run A
  undefined : Run A

infixl 5 ◌>>=◌
abbrev pub ◌>>=◌ {ℓ κ} : {A : Type ℓ} {B : Type κ} → Run A → (A → Run B) → Run B
ok a >>= f = f a
throws e >>= f = throws e
undefined >>= f = undefined

-- An access out of bounds is undefined.
abbrev pub defined {ℓ} : {A : Type ℓ} → Option A → Run A
defined none = undefined
defined (some a) = ok a

pub ok-injective {ℓ} : {A : Type ℓ} {a b : A} → ok a ≡ ok b → a ≡ b
ok-injective h = cc

-- A bind returns only if both of its parts do.
pub bind-eq-ok {ℓ κ} :
    {A : Type ℓ} {B : Type κ} (m : Run A) (f : A → Run B) (out : B)
    → (m >>= f) ≡ ok out
    → (a : A) × (m ≡ ok a) × (f a ≡ ok out)
bind-eq-ok (ok a) f out h = (a, refl, h)
bind-eq-ok (throws e) f out h = cc
bind-eq-ok undefined f out h = cc

pub bind-ne-ok {ℓ κ} :
    {A : Type ℓ} {B : Type κ} (m : Run A) (f : A → Run B) (out : B)
    → ((a : A) → m ≡ ok a → f a ≢ ok out)
    → (m >>= f) ≢ ok out
bind-ne-ok m f out h e =
    let (a, returns, then_returns) = bind-eq-ok m f out e in h a returns then_returns
