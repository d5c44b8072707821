-- ===== src/Process/Memory/Loop.antt =====
-- The while loop of Process::WriteMemory.
use building_a_debugger.Common.{
  ℕ, zero, suc, ◌+◌, ◌*◌, ◌/◌, ◌%◌, ◌^◌, ◌≤◌, ◌<◌, ◌≡◌, refl, sym, ap, subst, ◌∙◌, List, [], ◌∷◌,
  arith, length, take, drop, length-drop, All, none, some, Option-cases, inl, inr, Error,
  could_not_read_memory, failed_to_write_memory,
}
use building_a_debugger.Common.Bytes.{IsByte}
use building_a_debugger.Address.{add64}
use building_a_debugger.Kernel.{write_bytes, MemoryLaws}
use building_a_debugger.Process.State.{
  Process, Env, Outcome, done, raised, aborted, unspecified, ◌>>=◌, ◌>>◌, tell,
}
use building_a_debugger.Process.Memory.Bytes.{
  drop-IsByte, take_all, write_bytes_congr, write_bytes-take,
}
use building_a_debugger.Process.Memory.Writes.{WholeWord, next_word_lem}
use building_a_debugger.Process.Memory.{next_word, write_loop, write_memory}

module _ {K : Type 0} (env : Env K) where
  abbrev with_kernel : Process K → K → Process K
  with_kernel p t = record p { kernel_state = t }

  loop_end :
      (fuel address written : ℕ) (p : Process K)
      → write_loop env fuel address written [] p ≡ done tt p
  unfolding write_loop
  loop_end zero address written p = refl
  loop_end (suc fuel) address written p = refl

  loop_unread :
      (fuel address written b : ℕ) (rest : List ℕ) (e : Error) (p : Process K)
      → next_word env (add64 address written) (b ∷ rest) p ≡ raised e p
      → write_loop env (suc fuel) address written (b ∷ rest) p ≡ raised e p
  unfolding write_loop
  loop_unread fuel address written b rest e p h = rw (◌>>=◌, h) refl

  loop_unwritten :
      (fuel address written b word : ℕ) (rest : List ℕ) (p : Process K)
      → next_word env (add64 address written) (b ∷ rest) p ≡ done word p
      → env.kernel.poke_data (add64 address written) word p.kernel_state ≡ none
      → write_loop env (suc fuel) address written (b ∷ rest) p ≡ raised failed_to_write_memory p
  unfolding write_loop
  loop_unwritten fuel address written b word rest p h k = rw (◌>>=◌, h, ◌>>◌, tell, k) refl

  loop_written :
      (fuel address written b word : ℕ) (rest : List ℕ) (t : K) (p : Process K)
      → next_word env (add64 address written) (b ∷ rest) p ≡ done word p
      → env.kernel.poke_data (add64 address written) word p.kernel_state ≡ some t
      → write_loop env (suc fuel) address written (b ∷ rest) p
        ≡ write_loop env fuel address (written + 8) (drop 8 (b ∷ rest)) (with_kernel p t)
  unfolding write_loop
  loop_written fuel address written b word rest t p h k = rw (◌>>=◌, h, ◌>>◌, tell, k) refl

  -- What a write of bytes at an address leaves: the process as it was but for the kernel's side,
  -- where memory holds the bytes from the address on, or after an exception the first n bytes of it.
  abbrev pub Written :
      (K → ℕ → ℕ) → ℕ → List ℕ → Process K → Outcome (Process K) (Unit {0}) → Type 0
  Written memory a bytes p (done u q) =
      (q ≡ with_kernel p q.kernel_state)
      × ((b : ℕ) → memory q.kernel_state b ≡ write_bytes (memory p.kernel_state) a bytes b)
  Written memory a bytes p (raised e q) =
      (q ≡ with_kernel p q.kernel_state)
      × ((n : ℕ) × ((b : ℕ)
            → memory q.kernel_state b ≡ write_bytes (memory p.kernel_state) a (take n bytes) b))
  Written memory a bytes p aborted = ⊥
  Written memory a bytes p unspecified = ⊥

  -- A word in front of the rest.
  Written-word :
      (memory : K → ℕ → ℕ) (a : ℕ) (bytes : List ℕ) (t : K) (p : Process K)
      (o : Outcome (Process K) (Unit {0}))
      → ((b : ℕ) → memory t b ≡ write_bytes (memory p.kernel_state) a (take 8 bytes) b)
      → Written memory (a + 8) (drop 8 bytes) (with_kernel p t) o
      → Written memory a bytes p o
  Written-word memory a bytes t p (done u q) h (e, w) = (
    e,
    λ b.
        w b
        ∙ write_bytes_congr (memory t) (write_bytes (memory p.kernel_state) a (take 8 bytes))
            (a + 8) (drop 8 bytes) b (h b)
        ∙ ap (λ r. write_bytes (write_bytes (memory p.kernel_state) a (take 8 bytes)) (a + 8) r b)
            (sym (take_all (length bytes) (drop 8 bytes) (omega (arith, length-drop 8 bytes))))
        ∙ write_bytes-take (memory p.kernel_state) a 8 (length bytes) bytes b
        ∙ ap (λ r. write_bytes (memory p.kernel_state) a r b)
            (take_all (8 + length bytes) bytes (omega arith)),
  )
  Written-word memory a bytes t p (raised e q) h (f, (n, w)) = (
    f,
    (
      8 + n,
      λ b.
          w b
          ∙ write_bytes_congr (memory t) (write_bytes (memory p.kernel_state) a (take 8 bytes))
              (a + 8) (take n (drop 8 bytes)) b (h b)
          ∙ write_bytes-take (memory p.kernel_state) a 8 n bytes b,
    ),
  )
  Written-word memory a bytes t p aborted h w = w
  Written-word memory a bytes t p unspecified h w = w

module _ {K : Type 0} (env : Env K) (laws : MemoryLaws env.kernel) where
  -- The bytes that do not fill a word, if there are any, have a whole word to stand in.
  abbrev pub WholeTail : ℕ → List ℕ → Process K → Type 0
  WholeTail address bytes p =
      0 < length bytes % 8 → WholeWord env laws p.kernel_state (address + 8 * (length bytes / 8))

  last_word :
      (address start : ℕ) (bytes : List ℕ) (p : Process K)
      → WholeTail address bytes p
      → start ≡ address
      → 0 < length bytes
      → length bytes < 8
      → WholeWord env laws p.kernel_state start
  last_word address start bytes p tail e long short =
      let here : address + 8 * (length bytes / 8) ≡ start = omega arith in
      subst (WholeWord env laws p.kernel_state) here (tail (omega arith))

  WholeWord-poked :
      (s t : K) (a : ℕ)
      → ((b : ℕ) → laws.readable t b ≡ laws.readable s b)
      → WholeWord env laws s a
      → WholeWord env laws t a
  WholeWord-poked s t a same (inl h) = inl h
  WholeWord-poked s t a same (inr h) = inr (λ b l u. same b ∙ h b l u)

  later_tail :
      (address next : ℕ) (bytes : List ℕ) (p : Process K) (t : K)
      → ((b : ℕ) → laws.readable t b ≡ laws.readable p.kernel_state b)
      → WholeTail address bytes p
      → address + 8 ≡ next
      → WholeTail next (drop 8 bytes) (with_kernel env p t)
  later_tail address next bytes p t same tail e h =
      let size = length-drop 8 bytes in
      let here : address + 8 * (length bytes / 8) ≡ next + 8 * (length (drop 8 bytes) / 8) =
        omega (arith, size) in
      WholeWord-poked p.kernel_state t (next + 8 * (length (drop 8 bytes) / 8)) same
        (subst (WholeWord env laws p.kernel_state) here (tail (omega (arith, size))))

  loop-Written :
      (fuel address written : ℕ) (bytes : List ℕ) (p : Process K)
      → WholeTail (address + written) bytes p
      → All IsByte bytes
      → length bytes ≤ fuel
      → address + written + 8 * ((length bytes + 7) / 8) ≤ 2 ^ 64
      → Written env laws.memory
          (address + written)
          bytes
          p
          (write_loop env fuel address written bytes p)
  loop-Written fuel address written [] p tail valid enough inside =
      rw (loop_end env fuel address written p) (refl, λ b. refl)
  loop-Written zero address written (b ∷ rest) p tail valid enough inside = absurd (omega arith)
  loop-Written (suc fuel) address written (b ∷ rest) p tail valid enough inside =
      let at_word : add64 address written ≡ address + written = omega arith in
      elim (next_word_lem env laws (add64 address written) (b ∷ rest) p
        (λ h.
          last_word (address + written) (add64 address written) (b ∷ rest) p tail at_word
            (omega arith) h)
        valid (omega arith)) [
          | inl e ↦
              rw (loop_unread env fuel address written b rest could_not_read_memory p e)
                (refl, (0, λ c. refl))
          | inr (word, e, w) ↦
              elim (Option-cases
                (env.kernel.poke_data (add64 address written) word p.kernel_state)) [
                  | inl f ↦
                      rw (loop_unwritten env fuel address written b word rest p e f)
                        (refl, (0, λ c. refl))
                  | inr (t, f) ↦
                      let later : address + written + 8 ≡ address + (written + 8) = omega arith in
                      rw (loop_written env fuel address written b word rest t p e f) (
                        Written-word env laws.memory (address + written) (b ∷ rest) t p _
                          (λ c.
                            laws.poke_data-memory (add64 address written) word p.kernel_state t f c
                            ∙ w c
                            ∙ ap
                                (λ a.
                                  write_bytes (laws.memory p.kernel_state) a (take 8 (b ∷ rest)) c)
                                at_word)
                          (subst
                            (λ a.
                              Written env laws.memory a (drop 8 (b ∷ rest)) (with_kernel env p t) (
                                write_loop env fuel address (written + 8) (drop 8 (b ∷ rest))
                                  (with_kernel env p t)))
                            (sym later)
                            (loop-Written fuel address (written + 8) (drop 8 (b ∷ rest))
                              (with_kernel env p t)
                              (later_tail (address + written) (address + (written + 8)) (b ∷ rest) p
                                t
                                (laws.poke_data-readable (add64 address written) word p.kernel_state
                                  t f)
                                tail later)
                              (drop-IsByte 8 (b ∷ rest) valid)
                              (omega (arith, length-drop 8 (b ∷ rest)))
                              (omega (arith, length-drop 8 (b ∷ rest))))))
                ]
        ]

  -- WriteMemory of bytes whose words stay inside the address space, where the bytes that do not fill
  -- a word, if there are any, have a word to stand in that does not cross a page or that can be read
  -- over its end, returns or throws: once it returns, memory holds those bytes from the address on
  -- and is unchanged elsewhere; once it throws, it holds the first n of them, for some n. Nothing
  -- else of the process changes.
  pub write_memory-Written :
      (address : ℕ) (bytes : List ℕ) (p : Process K)
      → WholeTail address bytes p
      → All IsByte bytes
      → address + 8 * ((length bytes + 7) / 8) ≤ 2 ^ 64
      → Written env laws.memory address bytes p (write_memory env address bytes p)
  unfolding write_memory
  write_memory-Written address bytes p tail valid inside =
      subst (λ a. Written env laws.memory a bytes p (write_memory env address bytes p)) start
        (loop-Written (length bytes) address 0 bytes p
          (subst (λ a. WholeTail a bytes p) (sym start) tail) valid (omega arith) (omega arith))
    where
      start : address + 0 ≡ address
      start = omega arith
