-- ===== src/Cli/Faults.antt =====
-- Lines that end src/tools/sdb.cpp, or run into behaviour that C++ leaves undefined.
use building_a_debugger.Common.{
  ℕ, ◌^◌, ◌≡◌, ◌≢◌, refl, sym, ap, subst, ◌∙◌, ◌⊎◌, inl, inr, true, List, [], ◌∷◌, none, some, ok,
  bad_optional_access, arith,
}
use building_a_debugger.Common.Text.{codes}
use building_a_debugger.Parse.{to_integral, to_integral_int}
use building_a_debugger.Parse.Vectors.{Malformed, parse_vector-Malformed}
use building_a_debugger.Process.State.{Env, raised, aborted, unspecified, ◌>>=◌}
use building_a_debugger.Cli.{Session, split, is_prefix, argument, print_help, topic_of}
use building_a_debugger.Cli.Words.{Plain, join, split-join}
use building_a_debugger.Cli.Values.{FloatReader}
use building_a_debugger.Cli.Registers.{handle_register_command}
use building_a_debugger.Cli.Memory.{handle_memory_command, handle_memory_write_command}
use building_a_debugger.Cli.Watchpoints.{
  handle_watchpoint_command, change_watchpoint_by_id, change_watchpoint,
}
use building_a_debugger.Cli.Stops.{Tools}
use building_a_debugger.Cli.Loop.{handle_command, dispatch, is_sdb_error, run_line, caught}

-- The verbs that take the id of a watchpoint.
abbrev pub TakesId : List ℕ → Type 0
TakesId verb = (verb ≡ codes "enable") ⊎ ((verb ≡ codes "disable") ⊎ (verb ≡ codes "delete"))

-- The lines that go wrong.
pub data Faulty (line : List ℕ) : Type 0 where
  register_alone :
      (word : List ℕ)
      → Plain b' ' word
      → is_prefix word (codes "egister") ≡ true
      → line ≡ b'r' ∷ word
      → Faulty line
  watchpoint_without_id :
      (verb text : List ℕ)
      → TakesId verb
      → Plain b' ' text
      → text ≢ []
      → to_integral_int 10 text ≡ ok none
      → line ≡ join b' ' (codes "watchpoint" ∷ verb ∷ text ∷ [])
      → Faulty line

module _ {K : Type 0} (env : Env K) (tools : Tools) (floats : FloatReader) (fuel : ℕ) where
  -- The words of a line that is made of words.
  handle_words :
      (word : List ℕ) (words : List (List ℕ)) (s : Session K)
      → split (join b' ' (word ∷ words)) b' ' ≡ word ∷ words
      → handle_command env tools floats fuel (join b' ' (word ∷ words)) s
        ≡ dispatch env tools floats fuel word (word ∷ words) s
  unfolding handle_command
  handle_words word words s e =
      ap (λ args. (argument 0 args >>= λ command. dispatch env tools floats fuel command args) s) e

  handle_memory_write-Malformed :
      (address_text : List ℕ) (address a b c d : ℕ) (rest : List ℕ) (s : Session K)
      → to_integral (2 ^ 64) 16 address_text ≡ ok (some address)
      → a ≢ b']'
      → Malformed a b c d
      → handle_memory_command env
          (codes "memory" ∷ codes "write" ∷ address_text ∷ (b'[' ∷ a ∷ b ∷ c ∷ d ∷ rest) ∷ [])
          s
        ≡ raised bad_optional_access s
  unfolding handle_memory_command handle_memory_write_command is_prefix
  handle_memory_write-Malformed address_text address a b c d rest s e not_end h =
      rw (e, ◌>>=◌) (rw (parse_vector-Malformed a b c d rest not_end h, ◌>>=◌) refl)

  -- A `memory write` to an address whose vector starts with a byte that is not written as it should
  -- be ends the debugger, by std::terminate, instead of printing a message: the exception of the empty
  -- optional is not an sdb::Error, and nothing else is caught.
  pub run_line-Malformed :
      (address_text : List ℕ) (address a b c d : ℕ) (rest : List ℕ) (s : Session K)
      → Plain b' ' address_text
      → Plain b' ' (a ∷ b ∷ c ∷ d ∷ rest)
      → to_integral (2 ^ 64) 16 address_text ≡ ok (some address)
      → a ≢ b']'
      → Malformed a b c d
      → run_line env tools floats fuel
          (join b' '
            (codes "memory" ∷ codes "write" ∷ address_text ∷ (b'[' ∷ a ∷ b ∷ c ∷ d ∷ rest) ∷ []))
          s
        ≡ aborted
  unfolding dispatch is_prefix is_sdb_error
  run_line-Malformed address_text address a b c d rest s plain_address plain e not_end h =
      ap (caught env tools floats fuel) (
        handle_words (codes "memory")
          (codes "write" ∷ address_text ∷ (b'[' ∷ a ∷ b ∷ c ∷ d ∷ rest) ∷ []) s
          (split-join b' '
            (codes "memory" ∷ codes "write" ∷ address_text ∷ (b'[' ∷ a ∷ b ∷ c ∷ d ∷ rest) ∷ [])
            (omega arith, (omega arith, (plain_address, ((λ e. absurd (omega arith), plain), tt))))
            (λ e. cc))
        ∙ handle_memory_write-Malformed address_text address a b c d rest s e not_end h)

  handle_register-alone :
      (word : List ℕ) (s : Session K)
      → handle_register_command env floats (word ∷ []) s ≡ unspecified
  unfolding handle_register_command print_help topic_of
  handle_register-alone word s = refl

  dispatch-register :
      (word : List ℕ) (s : Session K)
      → is_prefix word (codes "egister") ≡ true
      → dispatch env tools floats fuel (b'r' ∷ word) ((b'r' ∷ word) ∷ []) s ≡ unspecified
  unfolding dispatch is_prefix
  dispatch-register word s start = rw start (handle_register-alone (b'r' ∷ word) s)

  run_line-register :
      (word : List ℕ) (s : Session K)
      → Plain b' ' word
      → is_prefix word (codes "egister") ≡ true
      → run_line env tools floats fuel (b'r' ∷ word) s ≡ unspecified
  run_line-register word s plain start = ap (caught env tools floats fuel) (
      handle_words (b'r' ∷ word) [] s
        (split-join b' ' ((b'r' ∷ word) ∷ []) (((λ e. absurd (omega arith)), plain), tt) (λ e. cc))
      ∙ dispatch-register word s start)

  TakesId-elim :
      (P : List ℕ → Type 0) (verb : List ℕ)
      → TakesId verb
      → P (codes "enable") × P (codes "disable") × P (codes "delete")
      → P verb
  TakesId-elim P verb (inl e) h = subst P (sym e) h.0
  TakesId-elim P verb (inr (inl e)) h = subst P (sym e) h.1
  TakesId-elim P verb (inr (inr e)) h = subst P (sym e) h.2

  handle_watchpoint-without_id :
      (verb text : List ℕ) (s : Session K)
      → TakesId verb
      → to_integral_int 10 text ≡ ok none
      → handle_watchpoint_command env (codes "watchpoint" ∷ verb ∷ text ∷ []) s ≡ unspecified
  unfolding handle_watchpoint_command change_watchpoint_by_id change_watchpoint is_prefix
  handle_watchpoint-without_id verb text s takes e =
      TakesId-elim
        (λ v. handle_watchpoint_command env (codes "watchpoint" ∷ v ∷ text ∷ []) s ≡ unspecified)
        verb takes (rw (e, ◌>>=◌) refl, rw (e, ◌>>=◌) refl, rw (e, ◌>>=◌) refl)

  dispatch-watchpoint :
      (verb text : List ℕ) (s : Session K)
      → dispatch env tools floats fuel
          (codes "watchpoint")
          (codes "watchpoint" ∷ verb ∷ text ∷ [])
          s
        ≡ handle_watchpoint_command env (codes "watchpoint" ∷ verb ∷ text ∷ []) s
  unfolding dispatch is_prefix
  dispatch-watchpoint verb text s = refl

  run_line-watchpoint :
      (verb text : List ℕ) (s : Session K)
      → TakesId verb
      → Plain b' ' text
      → text ≢ []
      → to_integral_int 10 text ≡ ok none
      → run_line env tools floats fuel (join b' ' (codes "watchpoint" ∷ verb ∷ text ∷ [])) s
        ≡ unspecified
  run_line-watchpoint verb text s takes plain given e = ap (caught env tools floats fuel) (
      handle_words (codes "watchpoint") (verb ∷ text ∷ []) s (
        split-join b' ' (codes "watchpoint" ∷ verb ∷ text ∷ [])
          (omega arith, (plain_verb, (plain, tt))) given)
      ∙ dispatch-watchpoint verb text s
      ∙ handle_watchpoint-without_id verb text s takes e)
    where
      plain_verb : Plain b' ' verb
      plain_verb = TakesId-elim (Plain b' ') verb takes (omega arith, omega arith, omega arith)

  -- After two messages the handlers go on into undefined behaviour: `register`, or a start of that
  -- word, alone on a line reads an argument that is not there, and `watchpoint enable`, `disable` and
  -- `delete` with a word that is no number use an id that is not there.
  pub run_line-unspecified :
      (line : List ℕ) (s : Session K)
      → Faulty line
      → run_line env tools floats fuel line s ≡ unspecified
  run_line-unspecified line s (register_alone word plain start e) =
      ap (λ l. run_line env tools floats fuel l s) e ∙ run_line-register word s plain start
  run_line-unspecified line s (watchpoint_without_id verb text takes plain given none_read e) =
      ap (λ l. run_line env tools floats fuel l s) e
      ∙ run_line-watchpoint verb text s takes plain given none_read
