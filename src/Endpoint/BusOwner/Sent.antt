-- ===== src/Endpoint/BusOwner/Sent.antt =====
-- The packets that the bus owner hands to its bus, with what is in them.
use mctp_emu.Prelude.{ℕ, ◌≡◌, refl, ap, ◌∙◌, List, [], ◌∷◌}
use mctp_emu.Crates.{Crates}
use mctp_emu.Base.Errors.{ok, err}
use mctp_emu.Base.Wire.{Wire}
use mctp_emu.Base.TransportHeader.{TransportHeader}
use mctp_emu.Control.Header.{ControlMsgHeader}
use mctp_emu.Control.CommandCode.{CommandCode}
use mctp_emu.Control.GetEid
use mctp_emu.Control.SetEid
use mctp_emu.Control.SetEid.Enums.{set_eid}
use mctp_emu.Control.SetEid.Fields.{new_request-operation}
use mctp_emu.Control.AllocateEids
use mctp_emu.Endpoint.Context.{Outcome, returns, panics}
use mctp_emu.Endpoint.Responder.Requests.{request}
use mctp_emu.Endpoint.BusOwner.{Owner, Reply, pure, after, ◌>>=◌}
use mctp_emu.Endpoint.BusOwner.Requests.{
  new_transport_hdr, new_control_hdr, send_and_decode, send_get_eid_request, send_set_eid_request,
  send_allocate_eids_request,
}
use mctp_emu.Endpoint.BusOwner.Success.{Post}
use mctp_emu.Endpoint.BusOwner.Packets.{
  transport_hdr, control_hdr, front, request_lem, sent_set_eid, sent_allocate_eids,
}

-- A bus that keeps the packets it is handed, the last one first, and else is the given one.
abbrev pub Logged : Type 0 → Type 0
Logged B = List (List ℕ) × B

abbrev pub logged : {B : Type 0} → (B → List ℕ → B × Reply) → Logged B → List ℕ → Logged B × Reply
logged bus (sent, b) bytes = let (b', r) = bus b bytes in ((bytes ∷ sent, b'), r)

module _ ⦃c : Crates⦄ where
  -- A packet is a request of the bus owner to EID 0, with a command code and the bytes behind it.
  abbrev pub Asks : (code : ℕ) → List ℕ → List ℕ → Type 0
  Asks code body bytes =
      (src : ℕ) × (tag : ℕ) × (id : ℕ) × (bytes ≡ request (front src 0 tag id) code body)

module _ ⦃c : Crates⦄ {B : Type 0} (bus : B → List ℕ → B × Reply) where
  -- One more packet was handed to the bus, and the next EID is as before.
  abbrev pub OneMore : (code : ℕ) → List ℕ → (s s' : Owner (Logged B)) → Type 0
  OneMore code body s s' =
      (bytes : List ℕ) × Asks code body bytes
      × (s'.bus.0 ≡ bytes ∷ s.bus.0)
      × (s'.next_eid ≡ s.next_eid)

  unwrapped-Post :
      {A C : Type 0} (Q : Owner (Logged B) → Type 0) (s : Owner (Logged B)) (o : Outcome (A × C))
      → Q s
      → Post (λ a s'. Q s') (after (s, o) (λ r. pure (r.1)))
  unfolding Post
  unwrapped-Post Q s (returns (ok r)) q = q
  unwrapped-Post Q s (returns (err e)) q = tt
  unwrapped-Post Q s panics q = tt

  request-Post :
      {T : Type 0} (w : Wire T) (code : CommandCode) (n : ℕ) (body : List ℕ)
      (bytes : TransportHeader → ControlMsgHeader → List ℕ)
      → ((src tag id : ℕ)
          → bytes (transport_hdr src 0 tag) (control_hdr code id)
            ≡ request (front src 0 tag id) n body)
      → (s : Owner (Logged B))
      → Post
          (λ a s'. OneMore n body s s')
          ((do
            t ← new_transport_hdr 0
            h ← new_control_hdr code
            r ← send_and_decode (logged bus) w (bytes t h)
            pure (r.1))
            s)
  unfolding Post ◌>>=◌ new_transport_hdr new_control_hdr send_and_decode
  request-Post w code n body bytes made s =
      let hdr = transport_hdr s.ctx.assigned_eid 0 s.ctx.next_msg_tag in
      let packet = bytes hdr (control_hdr code s.ctx.next_instance_id) in
      unwrapped-Post (OneMore n body s) _ _ (packet, (_, _, _, made _ _ _), refl, refl)

  pub get_eid-Post :
      (s : Owner (Logged B))
      → Post (λ a s'. OneMore 0x02 [] s s') (send_get_eid_request (logged bus) 0 s)
  unfolding send_get_eid_request
  get_eid-Post s =
      request-Post GetEid.response_wire CommandCode.get_endpoint_id 0x02 [] _
        (λ src tag id.
          let req : GetEid.Request = record { hdr = control_hdr CommandCode.get_endpoint_id id } in
          request_lem GetEid.request_message req src 0 tag id CommandCode.get_endpoint_id refl)
        s

  pub set_eid-Post :
      (eid : ℕ) (s : Owner (Logged B))
      → Post (λ a s'. OneMore 0x01 (0 ∷ eid ∷ []) s s') (send_set_eid_request (logged bus) eid s)
  unfolding send_set_eid_request
  set_eid-Post eid s =
      request-Post SetEid.response_wire CommandCode.set_endpoint_id 0x01 (0 ∷ eid ∷ []) _
        (λ src tag id.
          let hdr = control_hdr CommandCode.set_endpoint_id id in
          sent_set_eid src tag id eid
          ∙ ap (λ op. request (front src 0 tag id) 0x01 (op ∷ eid ∷ []))
              (new_request-operation hdr set_eid eid))
        s

  pub allocate_eids-Post :
      (first n : ℕ) (s : Owner (Logged B))
      → Post
          (λ a s'. OneMore 0x08 (0 ∷ n ∷ first ∷ []) s s')
          (send_allocate_eids_request (logged bus) first n s)
  unfolding send_allocate_eids_request
  allocate_eids-Post first n s =
      request-Post AllocateEids.response_wire CommandCode.allocate_endpoint_ids 0x08
        (0 ∷ n ∷ first ∷ []) _ (λ src tag id. sent_allocate_eids src tag id n first) s
