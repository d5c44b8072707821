-- ===== src/Process/Memory/Writes.antt =====
-- The words that Process::WriteMemory of src/process.cpp puts together.
use building_a_debugger.Common.{
  ℕ, ◌+◌, ◌%◌, ◌^◌, ◌≤◌, ◌<◌, ◌≡◌, refl, sym, ap, ◌∙◌, ◌⊎◌, inl, inr, true, false, List, ◌++◌,
  arith, leb, leb_false→lt, length, take, drop, length-take, length-drop, length-append, All,
  Bool-cases, leb→le, could_not_read_memory,
}
use building_a_debugger.Common.Bytes.{IsByte, from_bytes, as_bytes, as_bytes-from_bytes}
use building_a_debugger.Kernel.{bytes_at, write_bytes, MemoryLaws, ReadableIn}
use building_a_debugger.Process.State.{Process, Env, done, raised, ◌>>=◌}
use building_a_debugger.Process.Memory.Bytes.{
  bytes_at-IsByte, take-IsByte, drop-IsByte, append-IsByte, write_bytes_tail, take_all,
}
use building_a_debugger.Process.Memory.Chunks.{length-bytes_at}
use building_a_debugger.Process.Memory.Reads.{read_memory_in_page, read_memory_readable}
use building_a_debugger.Process.Memory.{read_memory, next_word}

-- The bytes of a word that is put together from 8 of them.
word_bytes : (bs : List ℕ) → All IsByte bs → length bs ≡ 8 → as_bytes 8 (from_bytes bs) ≡ bs
word_bytes bs bytes n = ap (λ t. as_bytes t (from_bytes bs)) (sym n) ∙ as_bytes-from_bytes bs bytes

-- The bytes of a word that is put together from fewer, and the ones that stand behind them.
word_bytes_tail :
    (m : ℕ → ℕ) (a : ℕ) (rest : List ℕ)
    → ((b : ℕ) → m b < 256)
    → All IsByte rest
    → length rest < 8
    → (b : ℕ)
    → write_bytes m a (as_bytes 8 (from_bytes (rest ++ drop (length rest) (bytes_at m a 8)))) b
      ≡ write_bytes m a (take 8 rest) b
word_bytes_tail m a rest below bytes short b =
    ap (λ t. write_bytes m a t b) (word_bytes whole whole-IsByte size)
    ∙ write_bytes_tail m a rest 8 b (omega arith)
    ∙ ap (λ t. write_bytes m a t b) (sym (take_all 8 rest (omega arith)))
  where
    read : List ℕ
    read = bytes_at m a 8

    whole : List ℕ
    whole = rest ++ drop (length rest) read

    whole-IsByte : All IsByte whole
    whole-IsByte =
        append-IsByte rest (drop (length rest) read) bytes
          (drop-IsByte (length rest) read (bytes_at-IsByte m below a 8))

    size : length whole ≡ 8
    size = omega (
      arith,
      length-append rest (drop (length rest) read),
      length-drop (length rest) read,
      length-bytes_at m a 8,
    )

module _ {K : Type 0} (env : Env K) (laws : MemoryLaws env.kernel) where
  -- The word puts the next bytes of the data, at most 8, in place, and nothing else.
  abbrev pub Writes : ℕ → List ℕ → (ℕ → ℕ) → ℕ → Type 0
  Writes a rest m word =
      (b : ℕ) → write_bytes m a (as_bytes 8 word) b ≡ write_bytes m a (take 8 rest) b

  next_word_full :
      (a : ℕ) (rest : List ℕ) (p : Process K)
      → leb 8 (length rest) ≡ true
      → next_word env a rest p ≡ done (from_bytes (take 8 rest)) p
  unfolding next_word
  next_word_full a rest p e = rw e refl

  next_word_raised :
      (a : ℕ) (rest : List ℕ) (p : Process K)
      → leb 8 (length rest) ≡ false
      → read_memory env a 8 p ≡ raised could_not_read_memory p
      → next_word env a rest p ≡ raised could_not_read_memory p
  unfolding next_word
  next_word_raised a rest p e f = rw (e, ◌>>=◌, f) refl

  next_word_short :
      (a : ℕ) (rest read : List ℕ) (p : Process K)
      → leb 8 (length rest) ≡ false
      → read_memory env a 8 p ≡ done read p
      → next_word env a rest p ≡ done (from_bytes (rest ++ drop (length rest) read)) p
  unfolding next_word
  next_word_short a rest read p e f = rw (e, ◌>>=◌, f) refl

  -- A word that a page holds, or that can be read over the end of one.
  abbrev pub WholeWord : K → ℕ → Type 0
  WholeWord s a = (a % 4096 + 8 ≤ 4096) ⊎ ReadableIn (laws.readable s) a (a + 8)

  read_word :
      (a : ℕ) (p : Process K)
      → WholeWord p.kernel_state a
      → a + 8 ≤ 2 ^ 64
      → (read_memory env a 8 p ≡ raised could_not_read_memory p)
        ⊎ (read_memory env a 8 p ≡ done (bytes_at (laws.memory p.kernel_state) a 8) p)
  read_word a p (inl in_page) inside = read_memory_in_page env laws a 8 p inside in_page
  read_word a p (inr readable) inside = read_memory_readable env laws a 8 p inside readable

  pub next_word_lem :
      (a : ℕ) (rest : List ℕ) (p : Process K)
      → (length rest < 8 → WholeWord p.kernel_state a)
      → All IsByte rest
      → a + 8 ≤ 2 ^ 64
      → (next_word env a rest p ≡ raised could_not_read_memory p)
        ⊎ ((word : ℕ) × (next_word env a rest p ≡ done word p)
            × Writes a rest (laws.memory p.kernel_state) word)
  next_word_lem a rest p whole bytes inside =
      let m = laws.memory p.kernel_state in
      elim (Bool-cases (leb 8 (length rest))) [
        | inl e ↦ inr (
          from_bytes (take 8 rest),
          next_word_full a rest p e,
          λ b.
              ap (λ t. write_bytes m a t b)
                (word_bytes (take 8 rest) (take-IsByte 8 rest bytes)
                  (omega (arith, length-take 8 rest, leb→le 8 (length rest) e))),
        )
        | inr e ↦ elim (read_word a p (whole (leb_false→lt 8 (length rest) e)) inside) [
          | inl f ↦ inl (next_word_raised a rest p e f)
          | inr f ↦ inr (
            _,
            next_word_short a rest (bytes_at m a 8) p e f,
            word_bytes_tail m a rest (laws.memory-lt p.kernel_state) bytes
                (leb_false→lt 8 (length rest) e),
          )
        ]
      ]
