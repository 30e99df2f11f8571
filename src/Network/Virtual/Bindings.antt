-- ===== src/Network/Virtual/Bindings.antt =====
-- Which bindings of a routed network can be looked up.
use mctp_emu.Prelude.{
  ℕ, zero, suc, ◌+◌, ◌^◌, ◌%◌, ◌≤◌, ◌<◌, ◌≡◌, refl, ap, ◌∙◌, List, [], ◌∷◌, ◌++◌, none, some, ◌==◌,
  arith, length, length-append, get_elem?, if◌then◌else◌, ◌⊎◌, inl, inr,
}
use mctp_emu.Emu.{MctpEmuError, MctpEmuResult, ok, err, panics, invalid_binding_error}
use mctp_emu.Network.Virtual.{VirtualNetwork, get_binding, add_physical_binding}
use mctp_emu.Network.Virtual.Runs.{Reach, Reach-Inv}

module _ {B : Type 0} where
  get_elem?-last : (xs : List B) (x : B) → get_elem? (xs ++ (x ∷ [])) (length xs) ≡ some x
  get_elem?-last [] x = refl
  get_elem?-last (y ∷ xs) x = get_elem?-last xs x

  get_elem?-past : (xs : List B) (i : ℕ) → length xs ≤ i → get_elem? xs i ≡ none
  get_elem?-past [] i h = refl
  get_elem?-past (x ∷ xs) zero h = absurd (omega arith)
  get_elem?-past (x ∷ xs) (suc i) h = get_elem?-past xs i (omega arith)

  last_cases :
      (xs : List B) → (xs ≡ []) ⊎ ((earlier : List B) × (last : B) × (xs ≡ earlier ++ (last ∷ [])))
  last_cases [] = inl refl
  last_cases (x ∷ xs) = elim (last_cases xs) [
    | inl e ↦ inr ([], x, ap (◌∷◌ x) e)
    | inr (earlier, last, e) ↦ inr (x ∷ earlier, last, ap (◌∷◌ x) e)
  ]

module _ {B J : Type 0} where
  -- The count is that of the list, and fits a `u64`.
  pub record IsCounted (net : VirtualNetwork B J) : Type 0 where
    pub counted : net.num_bindings ≡ length net.net_devs
    pub fits : length net.net_devs < 2 ^ 64

  added :
      (bound : ℕ → B → MctpEmuResult J) (net : VirtualNetwork B J) (binding : B)
      → ((add_physical_binding bound net binding).0.net_devs ≡ net.net_devs ++ (binding ∷ []))
        × ((add_physical_binding bound net binding).0.num_bindings
            ≡ (net.num_bindings + 1) % 2 ^ 64)
  unfolding add_physical_binding
  added bound net binding = ground arith

  -- Adding a binding keeps the count of bindings right, whatever the binding answers, as long as
  -- the count fits in 64 bits, and the binding stands at the index that was the count before.
  add_physical_binding-IsCounted :
      (bound : ℕ → B → MctpEmuResult J) (net : VirtualNetwork B J) (binding : B)
      → IsCounted net
      → length net.net_devs + 1 < 2 ^ 64
      → IsCounted (add_physical_binding bound net binding).0
        × (get_elem? (add_physical_binding bound net binding).0.net_devs net.num_bindings
            ≡ some binding)
  add_physical_binding-IsCounted bound net binding v h =
      let (devs, count) = added bound net binding in
      let size = ap length devs ∙ length-append net.net_devs (binding ∷ []) in
      (
        record { counted = omega (arith, size, count, v); fits = omega (arith, size, h) },
        rw (devs, v.counted) (get_elem?-last net.net_devs binding),
      )

  -- Where the count of bindings is right, of n + 1 bindings only the last can be looked up: any
  -- other id is refused, the ids of the earlier bindings included.
  get_binding_last :
      (net : VirtualNetwork B J) (earlier : List B) (last : B) (binding_id : ℕ)
      → IsCounted net
      → net.net_devs ≡ earlier ++ (last ∷ [])
      → get_binding net binding_id ≡ (
          if binding_id == length earlier
          then ok last
          else err (MctpEmuError.network (invalid_binding_error binding_id)))
  unfolding get_binding
  get_binding_last net earlier last binding_id v shape =
      let size = ap length shape ∙ length-append earlier (last ∷ []) in
      let count : net.num_bindings ≡ suc (length earlier) = omega (arith, size, v) in
      ground (
        arith,
        count,
        shape,
        get_elem?-last earlier last,
        get_elem?-past (earlier ++ (last ∷ [])) binding_id,
        length-append earlier (last ∷ []),
      )

  get_binding_none :
      (net : VirtualNetwork B J) (binding_id : ℕ)
      → net.num_bindings ≡ 0
      → get_binding net binding_id ≡ panics
  unfolding get_binding
  get_binding_none net binding_id e = rw e refl

  -- In every network with routes that the operations can make, of fewer than 2 ^ 64 bindings, only the
  -- binding that was added last can be looked up: any other id is refused, those of the other bindings
  -- included, and without a binding the look-up panics.
  pub get_binding-Reach :
      (handler : J) (net : VirtualNetwork B J) (binding_id : ℕ)
      → Reach handler net
      → length net.net_devs < 2 ^ 64
      → ((net.net_devs ≡ []) × (get_binding net binding_id ≡ panics))
        ⊎ ((earlier : List B) × (last : B) × (net.net_devs ≡ earlier ++ (last ∷ []))
            × (get_binding net binding_id ≡ (
                if binding_id == length earlier
                then ok last
                else err (MctpEmuError.network (invalid_binding_error binding_id)))))
  get_binding-Reach handler net binding_id r h =
      let v = Reach-Inv r in
      let counted : IsCounted net = record { counted = omega (arith, v.counted, h); fits = h } in
      elim (last_cases net.net_devs) [
        | inl none_yet ↦ inl (
          none_yet,
          get_binding_none net binding_id (omega (arith, counted.counted, ap length none_yet)),
        )
        | inr (earlier, last, shape) ↦
            inr (earlier, last, shape, get_binding_last net earlier last binding_id counted shape)
      ]
