-- ===== src/Endpoint/BusOwner/Assignment.antt =====
-- What a discovery gives to the endpoint that it finds, and what it tells the endpoint of it.
use mctp_emu.Prelude.{
  ℕ, ◌+◌, ◌<◌, ◌≡◌, refl, ap, ◌∙◌, List, [], ◌∷◌, true, false, ltb, ◌==◌, not, if◌then◌else◌, inl,
  inr, arith, ◌&&◌, Bool-cases,
}
use mctp_emu.Crates.{Crates}
use mctp_emu.Base.Errors.{ok, err, other}
use mctp_emu.Control.SetEid
use mctp_emu.Endpoint.Context.{returns}
use mctp_emu.Endpoint.BusOwner.{
  EndpointContext, Owner, Reply, pure, lift, is_dynamic, is_bridge, requires_pool,
}
use mctp_emu.Endpoint.BusOwner.Discovery.{
  advance, reserve, confirm, assign, allocate, discover, discovered,
}
use mctp_emu.Endpoint.BusOwner.Pool.{advance_lem}
use mctp_emu.Endpoint.BusOwner.Sent.{
  Logged, logged, Asks, OneMore, get_eid-Post, set_eid-Post, allocate_eids-Post,
}
use mctp_emu.Endpoint.Responder.Requests.{request}
use mctp_emu.Endpoint.BusOwner.Packets.{front}
use mctp_emu.Endpoint.BusOwner.Success.{
  Post, bind-Post, lift-Post, weaken-Post, err-Post, pure-Post, if-Post, u8_add-Post,
}

-- What reserving a pool gives, from the value of `next_eid` before it.
record Reserved (endpoint : EndpointContext) (from n : ℕ) (e : EndpointContext) (to : ℕ)
    : Type 0 where
  pub same_type : e.eid_type ≡ endpoint.eid_type
  pub size : e.dynamic_eid_pool_size ≡ n
  pub end : to ≡ from + n
  pub first : e.min_dynamic_eid ≡ from
  pub last : e.max_dynamic_eid + 1 ≡ to

module _ {B : Type 0} where
  advance-Post :
      (n : ℕ) (s : Owner B)
      → Post (λ a s'. (s'.next_eid ≡ s.next_eid + n) × (s'.bus ≡ s.bus)) (advance n s)
  unfolding Post
  advance-Post n s = rw (advance_lem n s) (elim (Bool-cases (ltb (s.next_eid + n) 256)) [
    | inl e ↦ rw (e) (refl, refl)
    | inr e ↦ rw (e) tt
  ])

  reserve-Post :
      (endpoint : EndpointContext) (n : ℕ) (s : Owner B)
      → 0 < n
      → Post
          (λ e s'. Reserved endpoint s.next_eid n e s'.next_eid × (s'.bus ≡ s.bus))
          (reserve endpoint n s)
  unfolding reserve
  reserve-Post endpoint n s h =
      let Q : EndpointContext → Owner B → Type 0 =
        λ e s'. Reserved endpoint s.next_eid n e s'.next_eid × (s'.bus ≡ s.bus) in
      bind-Post (λ a s'. (a ≡ s.next_eid) × (s' ≡ s)) Q _ _ s (unfold Post in (refl, refl))
        λ a s₁ p.
          bind-Post (λ x s'. (x ≡ a + n) × (s' ≡ s₁)) Q _ _ s₁ (u8_add-Post s₁ a n)
            λ x s₂ q.
              bind-Post (λ u s'. (s'.next_eid ≡ s₂.next_eid + n) × (s'.bus ≡ s₂.bus)) Q _ _ s₂
                (advance-Post n s₂)
                λ u s₃ r.
                  let same = q.1 ∙ p.1 in
                  let e₁ = ap (λ (t : Owner B). t.next_eid) same in
                  pure-Post Q _ s₃ (
                    record {
                      same_type = refl;
                      size = refl;
                      end = omega (arith, r.0, e₁);
                      first = p.0;
                      last = omega (arith, r.0, e₁, p.0, q.0, h);
                    },
                    r.1 ∙ ap (λ (t : Owner B). t.bus) same,
                  )

module _ ⦃c : Crates⦄ where
  -- The pool of an endpoint was announced to it by the last packet, with its size and its first EID, unless
  -- its first and last EID are the same.
  abbrev pub Announced : EndpointContext → (before sent : List (List ℕ)) → Type 0
  Announced e before sent =
      if e.min_dynamic_eid == e.max_dynamic_eid
      then sent ≡ before
      else (bytes : List ℕ) × Asks 0x08 (0 ∷ e.dynamic_eid_pool_size ∷ e.min_dynamic_eid ∷ []) bytes
        × (sent ≡ bytes ∷ before)

  -- What an endpoint is told and given while `next_eid` goes from one value to another, and the packets sent
  -- by then, the last first: it keeps its own EID; or it is sent the first of these EIDs as its own, and no
  -- more are kept for it; or the rest is its pool.
  pub data Found (from to : ℕ) (before told : List (List ℕ)) (e : EndpointContext) : Type 0 where
    kept :
        (get : List ℕ)
        → Asks 0x02 [] get
        → is_dynamic e.eid_type ≡ false
        → to ≡ from
        → e.dynamic_eid_pool_size ≡ 0
        → e.min_dynamic_eid ≡ e.max_dynamic_eid
        → told ≡ get ∷ before
        → Found from to before told e
    single :
        (get set : List ℕ)
        → Asks 0x02 [] get
        → Asks 0x01 (0 ∷ from ∷ []) set
        → is_dynamic e.eid_type ≡ true
        → to ≡ from + 1
        → e.dynamic_eid_pool_size ≡ 0
        → e.min_dynamic_eid ≡ e.max_dynamic_eid
        → told ≡ set ∷ get ∷ before
        → Found from to before told e
    pooled :
        (get set : List ℕ)
        → Asks 0x02 [] get
        → Asks 0x01 (0 ∷ from ∷ []) set
        → is_dynamic e.eid_type ≡ true
        → to ≡ from + 1 + e.dynamic_eid_pool_size
        → e.min_dynamic_eid ≡ from + 1
        → e.max_dynamic_eid + 1 ≡ to
        → told ≡ set ∷ get ∷ before
        → Found from to before told e

  -- The same, with the announcement of the pool behind it.
  abbrev pub Has : (from to : ℕ) (before sent : List (List ℕ)) → EndpointContext → Type 0
  Has from to before sent e =
      (told : List (List ℕ)) × Found from to before told e × Announced e told sent

module _ ⦃c : Crates⦄ {B : Type 0} (bus : B → List ℕ → B × Reply) where
  confirm-Post :
      (endpoint : EndpointContext) (resp : SetEid.Response) (from : ℕ) (before : List (List ℕ))
      (get set : List ℕ) (s : Owner (Logged B))
      → Asks 0x02 [] get
      → Asks 0x01 (0 ∷ from ∷ []) set
      → is_dynamic endpoint.eid_type ≡ true
      → endpoint.dynamic_eid_pool_size ≡ 0
      → endpoint.min_dynamic_eid ≡ endpoint.max_dynamic_eid
      → s.next_eid ≡ from + 1
      → s.bus.0 ≡ set ∷ get ∷ before
      → Post
          (λ e s'. Found from s'.next_eid before (s'.bus.0) e)
          (confirm (logged bus) endpoint resp s)
  unfolding confirm
  confirm-Post endpoint resp from before get set s ag as' d z m h t =
      let Q : EndpointContext → Owner (Logged B) → Type 0 =
        λ e s'. Found from s'.next_eid before (s'.bus.0) e in
      let asks =
        is_bridge endpoint.endpoint_type
        && (requires_pool endpoint.eid_allocation_status && ltb 0 resp.eid_pool_size) in
      if-Post Q (not (SetEid.eid_assignment_status resp == 0)) (lift (returns (err other)))
        (if asks then reserve endpoint resp.eid_pool_size else pure endpoint) s
        (λ r. err-Post Q other s)
        λ r.
          if-Post Q asks (reserve endpoint resp.eid_pool_size) (pure endpoint) s
            (λ p.
              weaken-Post _ Q _ (reserve-Post endpoint resp.eid_pool_size s (ground (arith, p)))
                λ e s' (v, same).
                  pooled get set ag as' (ap is_dynamic v.same_type ∙ d)
                    (omega (arith, v.end, v.size, h)) (v.first ∙ h) (v.last)
                    (ap (λ (b : Logged B). b.0) same ∙ t))
            (λ p. pure-Post Q endpoint s (single get set ag as' d h z m t))

  assign-Post :
      (endpoint : EndpointContext) (before : List (List ℕ)) (get : List ℕ) (s : Owner (Logged B))
      → Asks 0x02 [] get
      → is_dynamic endpoint.eid_type ≡ true
      → endpoint.dynamic_eid_pool_size ≡ 0
      → endpoint.min_dynamic_eid ≡ endpoint.max_dynamic_eid
      → s.bus.0 ≡ get ∷ before
      → Post
          (λ e s'. Found s.next_eid s'.next_eid before (s'.bus.0) e)
          (assign (logged bus) endpoint s)
  unfolding assign
  assign-Post endpoint before get s ag d z m t =
      let from = s.next_eid in
      let Q : EndpointContext → Owner (Logged B) → Type 0 =
        λ e s'. Found from s'.next_eid before (s'.bus.0) e in
      let Set : Owner (Logged B) → Type 0 = λ s'.
        (set : List ℕ) × Asks 0x01 (0 ∷ from ∷ []) set
        × (s'.bus.0 ≡ set ∷ get ∷ before)
        × (s'.next_eid ≡ from + 1) in
      bind-Post (λ a s'. (a ≡ from) × (s' ≡ s)) Q _ _ s (pure-Post _ _ s (refl, refl))
        λ a s₁ (ea, es).
          bind-Post (λ u s'. (s'.next_eid ≡ s₁.next_eid + 1) × (s'.bus ≡ s₁.bus)) Q _ _ s₁
            (advance-Post 1 s₁)
            λ u s₂ (en, eb).
              bind-Post (λ r s'. Set s') Q _ _ s₂
                (weaken-Post _ (λ r s'. Set s') _ (set_eid-Post bus a s₂)
                  λ r s' (set, (src, tag, id, e), logged_set, kept_eid). (
                    set,
                    (src, tag, id, e ∙ ap (λ n. request (front src 0 tag id) 0x01 (0 ∷ n ∷ [])) ea),
                    logged_set
                        ∙ ap (◌∷◌ set) (
                            ap (λ (b : Logged B). b.0)
                              (eb ∙ ap (λ (o : Owner (Logged B)). o.bus) es)
                            ∙ t),
                    kept_eid ∙ en ∙ ap (λ (o : Owner (Logged B)). o.next_eid + 1) es,
                  ))
                λ resp s₃ (set, as', l, k).
                  bind-Post (λ r s'. Set s') Q _ _ s₃
                    (lift-Post (λ r s'. Set s') s₃ _ λ v. (set, as', l, k))
                    λ v s₄ (set', as'', l', k').
                      confirm-Post
                        (record endpoint {
                          eid_allocation_status = SetEid.eid_allocation_status resp;
                        })
                        resp from before get set' s₄ ag as'' d z m k' l'

  allocate-Post :
      (e : EndpointContext) (s : Owner (Logged B))
      → Post
          (λ a s'. Announced e (s.bus.0) (s'.bus.0) × (s'.next_eid ≡ s.next_eid))
          (allocate (logged bus) e s)
  unfolding allocate
  allocate-Post e s =
      let P : Owner (Logged B) → Type 0 =
        λ s'. Announced e (s.bus.0) (s'.bus.0) × (s'.next_eid ≡ s.next_eid) in
      elim (Bool-cases (e.min_dynamic_eid == e.max_dynamic_eid)) [
        | inl one ↦ rw one (pure-Post _ tt s (refl, refl))
        | inr more ↦ rw more (
            bind-Post
              (λ a s'. OneMore bus 0x08 (0 ∷ e.dynamic_eid_pool_size ∷ e.min_dynamic_eid ∷ []) s s')
              _ _ _ s (allocate_eids-Post bus e.min_dynamic_eid e.dynamic_eid_pool_size s)
              λ a s₁ (bytes, asks, l, k).
                bind-Post (λ a s'. s' ≡ s₁) _ _ _ s₁ (lift-Post _ s₁ _ λ v. refl)
                  λ v s₂ same. lift-Post _ s₂ _ λ w. (
                    (bytes, asks, ap (λ (o : Owner (Logged B)). o.bus.0) same ∙ l),
                    ap (λ (o : Owner (Logged B)). o.next_eid) same ∙ k,
                  ))
      ]

  discover-Post :
      (s : Owner (Logged B))
      → Post (λ e s'. Has s.next_eid s'.next_eid (s.bus.0) (s'.bus.0) e) (discover (logged bus) s)
  unfolding discover
  discover-Post s =
      let before = s.bus.0 in
      let Q : EndpointContext → Owner (Logged B) → Type 0 =
        λ e s'. Has s.next_eid s'.next_eid before (s'.bus.0) e in
      let F : EndpointContext → Owner (Logged B) → Type 0 =
        λ e s'. Found s.next_eid s'.next_eid before (s'.bus.0) e in
      bind-Post (λ a s'. OneMore bus 0x02 [] s s') Q _ _ s (get_eid-Post bus s)
        λ resp s₁ p.
          bind-Post (λ a s'. OneMore bus 0x02 [] s s') Q _ _ s₁ (lift-Post _ s₁ _ λ v. p)
            λ v s₂ (get, asks, l, k).
              bind-Post F Q _ _ s₂
                (if-Post F _ _ _ s₂
                  (λ d.
                    weaken-Post _ F _
                      (assign-Post (discovered resp) before get s₂ asks d refl refl l)
                      λ e s' f. rw k at f)
                  (λ d. pure-Post F (discovered resp) s₂ (kept get asks d k refl refl l)))
                λ e s₃ f.
                  bind-Post
                    (λ a s'. Announced e (s₃.bus.0) (s'.bus.0) × (s'.next_eid ≡ s₃.next_eid)) Q _ _
                    s₃ (allocate-Post e s₃)
                    λ v s₄ (told, same). pure-Post Q e s₄ (s₃.bus.0, rw same f, told)

  -- A discovery that succeeds with an endpoint, and the packets that it hands to the bus. It asks for the
  -- endpoint's EID. Where the endpoint is not dynamic, the next EID stays as it is. Else the endpoint is sent
  -- the old next EID in a Set Endpoint ID request, and the next EID is one further, or, where a pool is kept
  -- for the endpoint, behind the pool, which begins right after the endpoint's EID. At last a pool with a
  -- first EID other than its last is announced with that EID and its size, and nothing else is sent.
  pub discover-Has :
      (s s' : Owner (Logged B)) (e : EndpointContext)
      → discover (logged bus) s ≡ (s', returns (ok e))
      → Has s.next_eid s'.next_eid (s.bus.0) (s'.bus.0) e
  unfolding Post
  discover-Has s s' e h = let p = discover-Post s in rw h at p
