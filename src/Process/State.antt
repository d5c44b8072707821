-- ===== src/Process/State.antt =====
-- The state of sdb::Process (include/libsdb/process.hpp), of breakpoint sites and of watchpoints,
-- and the monad of its operations: what was changed before an exception stays changed.
use building_a_debugger.Common.{
  ℕ, Bool, ◌&&◌, List, ltb, leb, ◌==◌, Option, none, some, Error, Run, ok, throws, undefined,
}
use building_a_debugger.Common.Int.{ℤ}
use building_a_debugger.Kernel.{Kernel}
use building_a_debugger.Registers.{FloatCasts}
use building_a_debugger.Registers.Table.{Layout}
use building_a_debugger.Stoppoints.{StopPoint}

pub data StoppointMode : Type 0 where
  write read_write execute : StoppointMode

pub data ProcessState : Type 0 where
  running stopped exited terminated : ProcessState

pub data TrapType : Type 0 where
  single_step software_breakpoint hardware_breakpoint syscall unknown : TrapType

pub data PolicyMode : Type 0 where
  catch_none catch_some catch_all : PolicyMode

pub record SyscallCatchPolicy : Type 0 where
  pub mode : PolicyMode
  pub to_catch : List ℤ

-- The union of SyscallInformation, by its `entry` flag.
pub data SyscallInformation : Type 0 where
  syscall_entry : ℕ → List ℕ → SyscallInformation
  syscall_exit : ℕ → ℕ → SyscallInformation

pub record StopReason : Type 0 where
  pub reason : ProcessState
  pub info : ℕ
  pub trap_reason : Option TrapType
  pub syscall_info : Option SyscallInformation

-- The index of a debug register that is not held is -1 in the source.
pub record BreakpointSite : Type 0 where
  pub id : ℤ
  pub address : ℕ
  pub is_enabled : Bool
  pub saved_data : ℕ
  pub is_hardware : Bool
  pub is_internal : Bool
  pub hardware_register_index : Option ℕ

pub record Watchpoint : Type 0 where
  pub id : ℤ
  pub address : ℕ
  pub mode : StoppointMode
  pub is_enabled : Bool
  pub size : ℕ
  pub current_data : ℕ
  pub previous_data : ℕ
  pub hardware_register_index : Option ℕ

-- AtAddress and IsInRange of both classes.
abbrev pub in_range : ℕ → ℕ → ℕ → Bool
in_range low high address = leb low address && ltb address high

instance abbrev pub site_point : StopPoint BreakpointSite
site_point = record {
  get_id = λ b. b.id;
  at_address = λ address b. address == b.address;
  is_in_range = λ low high b. in_range low high b.address;
  is_enabled = λ b. b.is_enabled;
}

instance abbrev pub watch_point : StopPoint Watchpoint
watch_point = record {
  get_id = λ w. w.id;
  at_address = λ address w. address == w.address;
  is_in_range = λ low high w. in_range low high w.address;
  is_enabled = λ w. w.is_enabled;
}

-- The process, the kernel's side of it, and the two static counters of ids.
pub record Process (K : Type 0) : Type 0 where
  pub kernel_state : K
  pub user : ℕ → ℕ
  pub is_attached : Bool
  pub expecting_syscall_exit : Bool
  pub state : ProcessState
  pub breakpoint_sites : List BreakpointSite
  pub watchpoints : List Watchpoint
  pub policy : SyscallCatchPolicy
  pub last_site_id : ℕ
  pub last_watchpoint_id : ℕ

-- What the operations are given from outside: the kernel, the layout of the user area and the
-- conversions of floating point values.
pub record Env (K : Type 0) : Type 0 where
  pub kernel : Kernel K
  pub layout : Layout
  pub casts : FloatCasts

-- `raised` is an exception, with the state that it leaves; `aborted` is std::terminate.
pub data Outcome (S : Type 0) (A : Type 0) : Type 0 where
  done : A → S → Outcome S A
  raised : Error → S → Outcome S A
  aborted : Outcome S A
  unspecified : Outcome S A

module _ {S : Type 0} where
  infixl 5 ◌>>=◌ ◌>>◌
  abbrev pub ◌>>=◌ : {A B : Type 0} → (S → Outcome S A) → (A → S → Outcome S B) → S → Outcome S B
  ◌>>=◌ m f s = elim (m s) [
    | done a t ↦ f a t
    | raised e t ↦ raised e t
    | aborted ↦ aborted
    | unspecified ↦ unspecified
  ]

  abbrev pub ◌>>◌ : {B : Type 0} → (S → Outcome S (Unit {0})) → (S → Outcome S B) → S → Outcome S B
  m >> k = m >>= λ _. k

  abbrev pub pure : {A : Type 0} → A → S → Outcome S A
  pure a s = done a s

  abbrev pub raise : {A : Type 0} → Error → S → Outcome S A
  raise e s = raised e s

  abbrev pub get : S → Outcome S S
  get s = done s s

  abbrev pub modify : (S → S) → S → Outcome S (Unit {0})
  modify f s = done tt (f s)

  -- A computation that does not touch the state.
  abbrev pub lift : {A : Type 0} → Run A → S → Outcome S A
  lift (ok a) s = done a s
  lift (throws e) s = raised e s
  lift undefined s = unspecified

-- A request to the kernel that returns a value, and one that changes it.
abbrev pub ask : {K A : Type 0} → (K → Option A) → Error → Process K → Outcome (Process K) A
ask request e p = elim (request p.kernel_state) [ none ↦ raised e p | some a ↦ done a p ]

abbrev pub tell : {K : Type 0} → (K → Option K) → Error → Process K → Outcome (Process K) (Unit {0})
tell request e p = elim (request p.kernel_state) [
  | none ↦ raised e p
  | some t ↦ done tt (record p { kernel_state = t })
]
