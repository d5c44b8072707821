-- ===== src/Process/Sites/Software.antt =====
-- BreakpointSite::Enable and Disable of a software breakpoint, on the memory of the process.
use building_a_debugger.Common.{
  ℕ, ◌+◌, ◌*◌, ◌/◌, ◌%◌, ◌^◌, ◌<◌, ◌≡◌, refl, ap, ◌∙◌, true, false, List, [], ◌∷◌, arith, bit_and,
  none, some, drop, enabling_failed, disabling_failed,
}
use building_a_debugger.Common.Masks.{bit_and-ones, replace_low_byte_as_sum}
use building_a_debugger.Common.Bytes.{as_bytes}
use building_a_debugger.Kernel.{write_bytes, MemoryLaws}
use building_a_debugger.Process.State.{
  BreakpointSite, Process, Env, done, raised, ◌>>=◌, ◌>>◌, ask, tell, modify,
}
use building_a_debugger.Process.Memory.Bytes.{write_bytes_tail}
use building_a_debugger.Process.Sites.{
  replace_low_byte, int3, put_site, enable_software, disable_software,
}

-- The bytes of a word after its low byte is replaced.
as_bytes-replace_low_byte :
    (word byte : ℕ)
    → word < 2 ^ 64
    → byte < 256
    → as_bytes 8 (replace_low_byte word byte) ≡ byte ∷ drop 1 (as_bytes 8 word)
unfolding replace_low_byte
as_bytes-replace_low_byte word byte hw hb = rw (replace_low_byte_as_sum word byte hw hb) (
    ap (λ t. t ∷ as_bytes 7 ((byte + 256 * (word / 256)) / 256)) low
    ∙ ap (λ t. byte ∷ as_bytes 7 t) high)
  where
    low : (byte + 256 * (word / 256)) % 256 ≡ byte
    low = omega arith

    high : (byte + 256 * (word / 256)) / 256 ≡ word / 256
    high = omega arith

head_of : List ℕ → ℕ
head_of [] = 0
head_of (b ∷ bs) = b

module _ {K : Type 0} (env : Env K) (laws : MemoryLaws env.kernel) where
  -- A word that is read, changed in its low byte and written back changes that byte only.
  pub low_byte_written :
      (a byte word : ℕ) (s t : K)
      → env.kernel.peek_data a s ≡ some word
      → byte < 256
      → env.kernel.poke_data a (replace_low_byte word byte) s ≡ some t
      → (b : ℕ) → laws.memory t b ≡ write_bytes (laws.memory s) a (byte ∷ []) b
  low_byte_written a byte word s t read small written b =
      laws.poke_data-memory a (replace_low_byte word byte) s t written b
      ∙ ap (λ r. write_bytes (laws.memory s) a r b)
          (as_bytes-replace_low_byte word byte (laws.peek_data-lt a s word read) small
            ∙ ap (λ r. byte ∷ drop 1 r) (laws.peek_data-memory a s word read))
      ∙ write_bytes_tail (laws.memory s) a (byte ∷ []) 8 b (omega arith)

  -- The byte that Enable saves is the one in memory.
  pub saved_byte :
      (a word : ℕ) (s : K)
      → env.kernel.peek_data a s ≡ some word
      → bit_and word 0xff ≡ laws.memory s a
  unfolding head_of
  saved_byte a word s read = bit_and-ones 8 word ∙ ap head_of (laws.peek_data-memory a s word read)

module _ {K : Type 0} (env : Env K) where
  abbrev pub site_saved : BreakpointSite → ℕ → BreakpointSite
  site_saved b word = record b { saved_data = bit_and word 0xff }

  pub enable_unread :
      (i : ℕ) (b : BreakpointSite) (p : Process K)
      → env.kernel.peek_data b.address p.kernel_state ≡ none
      → enable_software env i b p ≡ raised enabling_failed p
  unfolding enable_software
  enable_unread i b p e = rw (◌>>=◌, ask, e) refl

  pub enable_unwritten :
      (i word : ℕ) (b : BreakpointSite) (p : Process K)
      → env.kernel.peek_data b.address p.kernel_state ≡ some word
      → env.kernel.poke_data b.address (replace_low_byte word int3) p.kernel_state ≡ none
      → enable_software env i b p ≡ raised enabling_failed (put_site i (site_saved b word) p)
  unfolding enable_software
  enable_unwritten i word b p e f = rw (◌>>=◌, ask, e, ◌>>◌, modify, tell, f) refl

  pub enable_written :
      (i word : ℕ) (t : K) (b : BreakpointSite) (p : Process K)
      → env.kernel.peek_data b.address p.kernel_state ≡ some word
      → env.kernel.poke_data b.address (replace_low_byte word int3) p.kernel_state ≡ some t
      → enable_software env i b p
        ≡ done tt (
            put_site i
              (record (site_saved b word) { is_enabled = true })
              (record (put_site i (site_saved b word) p) { kernel_state = t }))
  unfolding enable_software
  enable_written i word t b p e f = rw (◌>>=◌, ask, e, ◌>>◌, modify, tell, f) refl

  pub disable_unread :
      (i : ℕ) (b : BreakpointSite) (p : Process K)
      → env.kernel.peek_data b.address p.kernel_state ≡ none
      → disable_software env i b p ≡ raised disabling_failed p
  unfolding disable_software
  disable_unread i b p e = rw (◌>>=◌, ask, e) refl

  pub disable_unwritten :
      (i word : ℕ) (b : BreakpointSite) (p : Process K)
      → env.kernel.peek_data b.address p.kernel_state ≡ some word
      → env.kernel.poke_data b.address (replace_low_byte word b.saved_data) p.kernel_state ≡ none
      → disable_software env i b p ≡ raised disabling_failed p
  unfolding disable_software
  disable_unwritten i word b p e f = rw (◌>>=◌, ask, e, ◌>>◌, tell, f) refl

  pub disable_written :
      (i word : ℕ) (t : K) (b : BreakpointSite) (p : Process K)
      → env.kernel.peek_data b.address p.kernel_state ≡ some word
      → env.kernel.poke_data b.address (replace_low_byte word b.saved_data) p.kernel_state ≡ some t
      → disable_software env i b p
        ≡ done tt (put_site i (record b { is_enabled = false }) (record p { kernel_state = t }))
  unfolding disable_software
  disable_written i word t b p e f = rw (◌>>=◌, ask, e, ◌>>◌, tell, f, modify) refl
