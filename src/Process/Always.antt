-- ===== src/Process/Always.antt =====
-- What holds of the process that an operation leaves, whether it returns or throws.
use building_a_debugger.Common.{
  Option, none, some, Error, Run, ok, throws, undefined, Bool, true, false, if◌then◌else◌,
}
use building_a_debugger.Process.State.{
  Process, Outcome, done, raised, aborted, unspecified, ◌>>=◌, ask, tell, lift,
}

module _ {S : Type 0} where
  abbrev pub Always : {A : Type 0} → (S → Type 0) → Outcome S A → Type 0
  Always I (done a q) = I q
  Always I (raised e q) = I q
  Always I aborted = Unit {0}
  Always I unspecified = Unit {0}

  pub Always-weaken :
      {A : Type 0} (J I : S → Type 0) (o : Outcome S A)
      → ((q : S) → J q → I q)
      → Always J o
      → Always I o
  Always-weaken J I (done a q) f h = f q h
  Always-weaken J I (raised e q) f h = f q h
  Always-weaken J I aborted f h = tt
  Always-weaken J I unspecified f h = tt

  -- The first operation may keep more than the whole.
  pub >>=-Always_into :
      {A B : Type 0} (J I : S → Type 0) (m : S → Outcome S A) (f : A → S → Outcome S B) (s : S)
      → Always J (m s)
      → ((q : S) → J q → I q)
      → ((a : A) (q : S) → J q → Always I (f a q))
      → Always I ((m >>= f) s)
  >>=-Always_into {B = B} J I m f s h weaken k =
      (elim (m s)
          as (λ o.
            Always J o
            → Always {A = B} I (elim o [
              | done a t ↦ f a t
              | raised e t ↦ raised e t
              | aborted ↦ aborted
              | unspecified ↦ unspecified
            ])) [
              | done a q ↦ k a q
              | raised e q ↦ weaken q
              | aborted ↦ λ i. i
              | unspecified ↦ λ i. i
            ])
        h

  pub >>=-Always :
      {A B : Type 0} (I : S → Type 0) (m : S → Outcome S A) (f : A → S → Outcome S B) (s : S)
      → Always I (m s)
      → ((a : A) (q : S) → I q → Always I (f a q))
      → Always I ((m >>= f) s)
  >>=-Always I m f s h k = >>=-Always_into I I m f s h (λ q i. i) k

  pub if-Always :
      {A : Type 0} (I : S → Type 0) (b : Bool) (m n : Outcome S A)
      → Always I m
      → Always I n
      → Always I (if b then m else n)
  if-Always I true m n h k = h
  if-Always I false m n h k = k

  pub if-Always_at :
      {A : Type 0} (I : S → Type 0) (b : Bool) (m n : S → Outcome S A) (s : S)
      → Always I (m s)
      → Always I (n s)
      → Always I ((if b then m else n) s)
  if-Always_at I true m n s h k = h
  if-Always_at I false m n s h k = k

  pub lift-Always : {A : Type 0} (I : S → Type 0) (r : Run A) (s : S) → I s → Always I (lift r s)
  lift-Always I (ok a) s h = h
  lift-Always I (throws e) s h = h
  lift-Always I undefined s h = tt

module _ {K : Type 0} where
  pub ask-Always :
      {A : Type 0} (I : Process K → Type 0) (request : K → Option A) (e : Error) (p : Process K)
      → I p
      → Always I (ask request e p)
  ask-Always I request e p h =
      elim (request p.kernel_state)
        as (λ o. Always I (elim o [ none ↦ raised e p | some a ↦ done a p ])) [
          | none ↦ h
          | some a ↦ h
        ]

  -- The kernel's side is not what the property is about.
  pub tell-Always :
      (I : Process K → Type 0) (request : K → Option K) (e : Error) (p : Process K)
      → I p
      → ((t : K) → I (record p { kernel_state = t }))
      → Always I (tell request e p)
  tell-Always I request e p h k =
      elim (request p.kernel_state)
        as (λ o.
          Always I
            (elim o [ none ↦ raised e p | some t ↦ done tt (record p { kernel_state = t }) ])) [
              | none ↦ h
              | some t ↦ k t
            ]
