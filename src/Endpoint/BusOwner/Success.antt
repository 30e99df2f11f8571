-- ===== src/Endpoint/BusOwner/Success.antt =====
-- Reasoning on the steps of the bus owner: what holds where a step succeeds, a chain step by step.
use mctp_emu.Prelude.{
  ℕ, ◌+◌, ◌≡◌, refl, Bool, true, false, ltb, if◌then◌else◌, inl, inr, Bool-cases,
}
use mctp_emu.Base.Errors.{ok, err, MctpBaseLibError}
use mctp_emu.Endpoint.Context.{Outcome, returns, panics}
use mctp_emu.Endpoint.BusOwner.{Owner, Step, lift, after, ◌>>=◌, u8_add}

-- What holds after a step that succeeds.
module _ {B : Type 0} where
  unfoldable pub Post : {A : Type 0} → (A → Owner B → Type 0) → Owner B × Outcome A → Type 0
  Post Q (s, returns (ok a)) = Q a s
  Post Q (s, returns (err e)) = Unit {0}
  Post Q (s, panics) = Unit {0}

  pub bind-Post :
      {A C : Type 0} (R : A → Owner B → Type 0) (Q : C → Owner B → Type 0) (m : Step B A)
      (f : A → Step B C) (s : Owner B)
      → Post R (m s)
      → ((a : A) (s' : Owner B) → R a s' → Post Q (f a s'))
      → Post Q ((m >>= f) s)
  unfolding Post ◌>>=◌
  bind-Post R Q m f s h k = go (m s) h
    where
      go : (r : Owner B × Outcome _) → Post R r → Post Q (after r f)
      go (s', returns (ok a)) p = k a s' p
      go (s', returns (err e)) p = tt
      go (s', panics) p = tt

  pub lift-Post :
      {A : Type 0} (Q : A → Owner B → Type 0) (s : Owner B) (o : Outcome A)
      → ((a : A) → Q a s)
      → Post Q (s, o)
  unfolding Post
  lift-Post Q s (returns (ok a)) h = h a
  lift-Post Q s (returns (err e)) h = tt
  lift-Post Q s panics h = tt

  pub weaken-Post :
      {A : Type 0} (R Q : A → Owner B → Type 0) (r : Owner B × Outcome A)
      → Post R r
      → ((a : A) (s : Owner B) → R a s → Q a s)
      → Post Q r
  unfolding Post
  weaken-Post R Q (s, returns (ok a)) p k = k a s p
  weaken-Post R Q (s, returns (err e)) p k = tt
  weaken-Post R Q (s, panics) p k = tt

  pub err-Post :
      {A : Type 0} (Q : A → Owner B → Type 0) (e : MctpBaseLibError) (s : Owner B)
      → Post Q (s, returns (err e))
  unfolding Post
  err-Post Q e s = tt

  pub pure-Post :
      {A : Type 0} (Q : A → Owner B → Type 0) (a : A) (s : Owner B)
      → Q a s
      → Post Q (s, returns (ok a))
  unfolding Post
  pure-Post Q a s q = q

  pub if-Post :
      {A : Type 0} (Q : A → Owner B → Type 0) (b : Bool) (m k : Step B A) (s : Owner B)
      → (b ≡ true → Post Q (m s))
      → (b ≡ false → Post Q (k s))
      → Post Q ((if b then m else k) s)
  if-Post Q true m k s h h' = h refl
  if-Post Q false m k s h h' = h' refl

  pub u8_add-Post :
      (s : Owner B) (a n : ℕ) → Post (λ x s'. (x ≡ a + n) × (s' ≡ s)) (lift (u8_add a n) s)
  unfolding Post u8_add
  u8_add-Post s a n = elim (Bool-cases (ltb (a + n) 256)) [
    | inl e ↦ rw (e) (refl, refl)
    | inr e ↦ rw (e) tt
  ]
