-- ===== src/Endpoint/BusOwner/Pool.antt =====
-- Which EIDs the bus owner gives out.
use mctp_emu.Prelude.{
  ℕ, ◌+◌, ◌≤◌, ◌<◌, ◌≡◌, List, [], ◌∷◌, Bool, true, false, ltb, if◌then◌else◌, inl, inr, Bool-cases,
  arith,
}
use mctp_emu.Crates.{Crates}
use mctp_emu.Base.Errors.{ok, err}
use mctp_emu.Base.Wire.{Wire}
use mctp_emu.Base.TransportHeader.{TransportHeader}
use mctp_emu.Control.Header.{ControlMsgHeader}
use mctp_emu.Control.CommandCode.{CommandCode}
use mctp_emu.Control.SetEid
use mctp_emu.Endpoint.Context.{MctpEndpointContext, Outcome, returns, panics}
use mctp_emu.Endpoint.BusOwner.{
  EndpointContext, Owner, Reply, Step, pure, lift, after, ◌>>=◌, u8_add,
}
use mctp_emu.Endpoint.BusOwner.Requests.{
  new_transport_hdr, new_control_hdr, send_and_decode, send_get_eid_request, send_set_eid_request,
  send_allocate_eids_request,
}
use mctp_emu.Endpoint.BusOwner.Discovery.{
  advance, reserve, confirm, assign, allocate, discover, unwrap, ping, round, rounds,
}

module _ {B : Type 0} where
  after-u8_add :
      {C : Type 0} (a n : ℕ) (s : Owner B) (f : ℕ → Step B C)
      → after (s, u8_add a n) f ≡ (if ltb (a + n) 256 then f (a + n) s else (s, panics))
  unfolding u8_add
  after-u8_add a n s f = ground arith

  pub advance_lem :
      (n : ℕ) (s : Owner B)
      → advance n s ≡ (
          if ltb (s.next_eid + n) 256
          then (record s { next_eid = s.next_eid + n }, returns (ok tt))
          else (s, panics))
  unfolding advance ◌>>=◌
  advance_lem n s =
      after-u8_add s.next_eid n s (λ e s'. (record s' { next_eid = e }, returns (ok tt)))

-- A step that keeps what holds of `next_eid`, whatever it comes to.
module _ (B : Type 0) (P : ℕ → Type 0) where
  unfoldable pub Keeps : {A : Type 0} → Step B A → Type 0
  Keeps m = (s : Owner B) → P s.next_eid → P (m s).0.next_eid

  bind-Keeps :
      {A C : Type 0} (m : Step B A) (f : A → Step B C)
      → Keeps m
      → ((a : A) → Keeps (f a))
      → Keeps (m >>= f)
  unfolding ◌>>=◌ Keeps
  bind-Keeps m f hm hf s w = go (m s) (hm s w)
    where
      go : (r : Owner B × Outcome _) → P r.0.next_eid → P (after r f).0.next_eid
      go (s', returns (ok a)) w' = hf a s' w'
      go (s', returns (err e)) w' = w'
      go (s', panics) w' = w'

  lift-Keeps : {A : Type 0} (o : Outcome A) → Keeps (lift o)
  unfolding Keeps
  lift-Keeps o s w = w

  abbrev pub Climbs : Type 0
  Climbs = (a n : ℕ) → P a → a + n < 256 → P (a + n)

  advance-Keeps : Climbs → (n : ℕ) → Keeps (advance n)
  unfolding Keeps
  advance-Keeps up n s w = rw (advance_lem n s) (elim (Bool-cases (ltb (s.next_eid + n) 256)) [
    | inl e ↦ rw (e) (up s.next_eid n w (ground (arith, e)))
    | inr e ↦ rw (e) w
  ])

  reserve-Keeps : Climbs → (endpoint : EndpointContext) (n : ℕ) → Keeps (reserve endpoint n)
  unfolding reserve
  reserve-Keeps up endpoint n = bind-Keeps _ _ (unfold Keeps in λ s w. w) λ min.
      bind-Keeps _ _ (lift-Keeps _) λ end. bind-Keeps _ _ (advance-Keeps up n) λ u. lift-Keeps _

  choose-Keeps :
      {A : Type 0} (b : Bool) (m k : Step B A) → Keeps m → Keeps k → Keeps (if b then m else k)
  choose-Keeps true m k hm hk = hm
  choose-Keeps false m k hm hk = hk

module _ ⦃c : Crates⦄ (B : Type 0) (bus : B → List ℕ → B × Reply) (P : ℕ → Type 0) where
  -- A request in three steps: the two headers, and the exchange.
  request-Keeps :
      {T : Type 0} (w : Wire T) (dst : ℕ) (code : CommandCode)
      (bytes : TransportHeader → ControlMsgHeader → List ℕ)
      → Keeps B P (do
        t ← new_transport_hdr dst
        h ← new_control_hdr code
        r ← send_and_decode bus w (bytes t h)
        pure (r.1))
  request-Keeps w dst code bytes =
      bind-Keeps B P _ _ (unfold Keeps new_transport_hdr in λ s w. w) λ t.
        bind-Keeps B P _ _ (unfold Keeps new_control_hdr in λ s w. w)
          λ h. bind-Keeps B P _ _ (unfold Keeps send_and_decode in λ s w. w) λ r. lift-Keeps B P _

  pub get_eid-Keeps : (dst : ℕ) → Keeps B P (send_get_eid_request bus dst)
  unfolding send_get_eid_request
  get_eid-Keeps dst = request-Keeps _ dst _ _

  pub set_eid-Keeps : (eid : ℕ) → Keeps B P (send_set_eid_request bus eid)
  unfolding send_set_eid_request
  set_eid-Keeps eid = request-Keeps _ 0 _ _

  pub allocate_eids-Keeps : (first n : ℕ) → Keeps B P (send_allocate_eids_request bus first n)
  unfolding send_allocate_eids_request
  allocate_eids-Keeps first n = request-Keeps _ 0 _ _

  pub allocate-Keeps : (endpoint : EndpointContext) → Keeps B P (allocate bus endpoint)
  unfolding allocate
  allocate-Keeps endpoint =
      choose-Keeps B P _ _ _
        (bind-Keeps B P _ _ (allocate_eids-Keeps _ _)
          λ resp. bind-Keeps B P _ _ (lift-Keeps B P _) λ v. lift-Keeps B P _)
        (lift-Keeps B P _)

module _ ⦃c : Crates⦄ (B : Type 0) (bus : B → List ℕ → B × Reply) (P : ℕ → Type 0)
    (up : Climbs B P) where
  confirm-Keeps :
      (endpoint : EndpointContext) (resp : SetEid.Response) → Keeps B P (confirm bus endpoint resp)
  unfolding confirm
  confirm-Keeps endpoint resp =
      choose-Keeps B P _ _ _ (lift-Keeps B P _)
        (choose-Keeps B P _ _ _ (reserve-Keeps B P up endpoint _) (lift-Keeps B P _))

  assign-Keeps : (endpoint : EndpointContext) → Keeps B P (assign bus endpoint)
  unfolding assign
  assign-Keeps endpoint = bind-Keeps B P _ _ (unfold Keeps in λ s w. w) λ eid.
      bind-Keeps B P _ _ (advance-Keeps B P up 1) λ u.
        bind-Keeps B P _ _ (set_eid-Keeps B bus P eid)
          λ resp. bind-Keeps B P _ _ (lift-Keeps B P _) λ v. confirm-Keeps _ resp

  discover-Keeps : Keeps B P (discover bus)
  unfolding discover
  discover-Keeps = bind-Keeps B P _ _ (get_eid-Keeps B bus P 0) λ resp.
      bind-Keeps B P _ _ (lift-Keeps B P _) λ u.
        bind-Keeps B P _ _ (choose-Keeps B P _ _ _ (assign-Keeps _) (lift-Keeps B P _))
          λ endpoint. bind-Keeps B P _ _ (allocate-Keeps B bus P endpoint) λ v. lift-Keeps B P _

  unwrap-Keeps : {A : Type 0} (m : Step B A) → Keeps B P m → Keeps B P (unwrap m)
  unfolding unwrap Keeps
  unwrap-Keeps m h = h

  ping-Keeps : (eid : ℕ) → Keeps B P (ping bus eid)
  unfolding ping
  ping-Keeps eid =
      choose-Keeps B P _ _ _
        (bind-Keeps B P _ _ (unwrap-Keeps _ (get_eid-Keeps B bus P eid)) λ resp. lift-Keeps B P _)
        (lift-Keeps B P _)

  round-Keeps : (eid : ℕ) → Keeps B P (round bus eid)
  unfolding Keeps round
  round-Keeps eid s w =
      let s' = record s { ctx = record s.ctx { perform_discovery = false } } in
      elim (Bool-cases s.ctx.perform_discovery) [
        | inl e ↦
            rw (e) (bind-Keeps B P _ _ discover-Keeps (λ a. lift-Keeps B P (returns (ok tt))) s' w)
        | inr e ↦ rw (e) (ping-Keeps eid s' w)
      ]

  rounds_keep :
      (ping_eid : ℕ) (others : List (MctpEndpointContext → MctpEndpointContext))
      → Keeps B P (rounds bus ping_eid others)
  unfolding rounds Keeps
  rounds_keep ping_eid [] s w = w
  rounds_keep ping_eid (other ∷ others) s w =
      unfold Keeps in
      bind-Keeps B P (round bus ping_eid) _ (round-Keeps ping_eid)
        (λ u. rounds_keep ping_eid others) (record s { ctx = other s.ctx }) w

module _ ⦃c : Crates⦄ (B : Type 0) (bus : B → List ℕ → B × Reply) where
  -- Over any number of rounds, whatever the bus replies and other tasks do to the context
  -- meanwhile, and also where a round fails, the next EID, a byte at first, stays a byte and does
  -- not end below where it began.
  pub rounds-next_eid :
      (ping_eid : ℕ) (others : List (MctpEndpointContext → MctpEndpointContext)) (s : Owner B)
      → s.next_eid < 256
      → (s.next_eid ≤ (rounds bus ping_eid others s).0.next_eid)
        × ((rounds bus ping_eid others s).0.next_eid < 256)
  rounds-next_eid ping_eid others s h =
      unfold Keeps in
      rounds_keep B bus (λ n. (s.next_eid ≤ n) × (n < 256))
        (λ a n w b. (omega (arith, w.0), omega arith)) ping_eid others s (omega arith, h)
