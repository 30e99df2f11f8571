-- ===== src/Endpoint/Flow/Order.antt =====
-- Taking flows out one by one: each is taken in its turn.
use mctp_emu.Prelude.{
  ℕ, ◌+◌, ◌<◌, ◌≡◌, refl, ap, sym, subst, ◌∙◌, List, [], ◌∷◌, ◌++◌, none, some, Bool, true, false,
  ◌⊎◌, length, arith, inl, inr, Bool-cases, if◌then◌else◌, append_assoc, length-append, All-append,
}
use mctp_emu.Endpoint.Flow.{MsgFlowTag, answers, take_flow}
use mctp_emu.Endpoint.Flow.Matching.{NoAnswer, split, take_flow-NoAnswer, take_flow-append}

-- What happens to the pending flows: one is added, or a packet with a tag comes.
pub data Event (S : Type 0) : Type 0 where
  added : (flow : MsgFlowTag × S) → Event S
  packet : (recv_tag : MsgFlowTag) → Event S

module _ {S : Type 0} where
  -- How many of the packets answer a flow.
  unfoldable pub hits : MsgFlowTag × S → List (Event S) → ℕ
  hits flow [] = 0
  hits flow (added other ∷ events) = hits flow events
  hits flow (packet recv_tag ∷ events) =
      (if answers flow.0 recv_tag then 1 else 0) + hits flow events

  -- A channel is among some channels.
  abbrev pub Gets : S → List S → Type 0
  Gets resp channels = (xs : List S) × (ys : List S) × (channels ≡ xs ++ (resp ∷ ys))

  Gets-cons : (x resp : S) (channels : List S) → Gets resp channels → Gets resp (x ∷ channels)
  Gets-cons x resp channels (xs, ys, e) = (x ∷ xs, ys, ap (◌∷◌ x) e)

module _ {S : Type 0} (listening : S → Bool) where
  -- The channels that packets are sent to over a sequence of events, up to one that nobody listens to:
  -- `resp.send(..).unwrap()` panics on it, and no packet is looked at any more.
  unfoldable pub handed : List (Event S) → List (MsgFlowTag × S) → List S
  handed [] flows = []
  handed (added flow ∷ events) flows = handed events (flows ++ (flow ∷ []))
  handed (packet recv_tag ∷ events) flows = elim (take_flow recv_tag flows) [
    | none ↦ handed events flows
    | some (flow, rest) ↦
        let later = handed events rest in if listening flow.1 then flow.1 ∷ later else flow.1 ∷ []
  ]

  -- Some channel was sent a packet that nobody listened to.
  abbrev pub Broken : List S → Type 0
  Broken channels = (resp : S) × (listening resp ≡ false) × Gets resp channels

  handed-packet :
      (recv_tag : MsgFlowTag) (events : List (Event S)) (flows : List (MsgFlowTag × S))
      (earlier : List (MsgFlowTag × S)) (flow : MsgFlowTag × S) (later : List (MsgFlowTag × S))
      → flows ≡ earlier ++ (flow ∷ later)
      → NoAnswer recv_tag earlier
      → answers flow.0 recv_tag ≡ true
      → handed (packet recv_tag ∷ events) flows
        ≡ (if listening flow.1 then flow.1 ∷ handed events (earlier ++ later) else flow.1 ∷ [])
  unfolding handed
  handed-packet recv_tag events flows earlier flow later e h a =
      rw (e, take_flow-append recv_tag earlier flow later h a, handed) refl

  handed-added :
      (events : List (Event S)) (earlier : List (MsgFlowTag × S)) (flow : MsgFlowTag × S)
      (later : List (MsgFlowTag × S)) (other : MsgFlowTag × S)
      → handed (added other ∷ events) (earlier ++ (flow ∷ later))
        ≡ handed events (earlier ++ (flow ∷ (later ++ (other ∷ []))))
  unfolding handed
  handed-added events earlier flow later other =
      ap (handed events) (append_assoc earlier (flow ∷ later) (other ∷ []))

  handed-unclaimed :
      (recv_tag : MsgFlowTag) (events : List (Event S)) (flows : List (MsgFlowTag × S))
      → NoAnswer recv_tag flows
      → handed (packet recv_tag ∷ events) flows ≡ handed events flows
  unfolding handed
  handed-unclaimed recv_tag events flows h = rw (take_flow-NoAnswer recv_tag flows h, handed) refl

  -- A flow is answered, or the handler is dead.
  abbrev Served : S → List S → Type 0
  Served resp channels = Gets resp channels ⊎ Broken channels

  Served-cons : (x resp : S) (channels : List S) → Served resp channels → Served resp (x ∷ channels)
  Served-cons x resp channels (inl g) = inl (Gets-cons x resp channels g)
  Served-cons x resp channels (inr (r, quiet, g)) = inr (r, quiet, Gets-cons x r channels g)

  -- The packet goes to another flow, and what follows serves the flow.
  Served-other :
      (recv_tag : MsgFlowTag) (events : List (Event S)) (flows : List (MsgFlowTag × S))
      (earlier : List (MsgFlowTag × S)) (other : MsgFlowTag × S) (later : List (MsgFlowTag × S))
      (resp : S)
      → flows ≡ earlier ++ (other ∷ later)
      → NoAnswer recv_tag earlier
      → answers other.0 recv_tag ≡ true
      → Served resp (handed events (earlier ++ later))
      → Served resp (handed (packet recv_tag ∷ events) flows)
  Served-other recv_tag events flows earlier other later resp e h a v =
      let step = handed-packet recv_tag events flows earlier other later e h a in
      elim (Bool-cases (listening other.1)) [
        | inl l ↦ rw (step, l) (Served-cons other.1 resp _ v)
        | inr l ↦ rw (step, l) (inr (other.1, l, ([], [], refl)))
      ]

  Gets-first :
      (recv_tag : MsgFlowTag) (events : List (Event S)) (earlier : List (MsgFlowTag × S))
      (flow : MsgFlowTag × S) (later : List (MsgFlowTag × S))
      → NoAnswer recv_tag earlier
      → answers flow.0 recv_tag ≡ true
      → Gets flow.1 (handed (packet recv_tag ∷ events) (earlier ++ (flow ∷ later)))
  Gets-first recv_tag events earlier flow later h a =
      let step = handed-packet recv_tag events _ earlier flow later refl h a in
      elim (Bool-cases (listening flow.1)) [
        | inl l ↦ rw (step, l) ([], _, refl)
        | inr l ↦ rw (step, l) ([], [], refl)
      ]

  -- A pending flow gets its answer, whatever else is sent and received meanwhile, or the handler dies: once
  -- more packets that answer it have come than flows are pending before it, one of them was sent to its
  -- channel, or a packet was sent to a channel that nobody listens to.
  pub handed_lem :
      (events : List (Event S)) (earlier : List (MsgFlowTag × S)) (flow : MsgFlowTag × S)
      (later : List (MsgFlowTag × S))
      → length earlier < hits flow events
      → let channels = handed events (earlier ++ (flow ∷ later)) in
        Gets flow.1 channels ⊎ Broken channels
  unfolding hits
  handed_lem [] earlier flow later h = absurd (omega arith)
  handed_lem (added other ∷ events) earlier flow later h =
      rw (handed-added events earlier flow later other)
        (handed_lem events earlier flow (later ++ (other ∷ [])) h)
  handed_lem (packet recv_tag ∷ events) earlier flow later h = elim (split recv_tag earlier) [
    | inr s ↦
        let rest = s.later ++ (flow ∷ later) in
        let shape =
          ap (λ l. l ++ (flow ∷ later)) s.shape
          ∙ append_assoc s.earlier (s.flow ∷ s.later) (flow ∷ later) in
        let size = ap length s.shape ∙ length-append s.earlier (s.flow ∷ s.later) in
        let v =
          handed_lem events (s.earlier ++ s.later) flow later
            (ground (arith, h, size, length-append s.earlier s.later)) in
        Served-other recv_tag events _ s.earlier s.flow rest flow.1 shape s.unanswered s.answered (
          subst (λ l. Served flow.1 (handed events l))
            (append_assoc s.earlier s.later (flow ∷ later)) v)
    | inl q ↦ elim (Bool-cases (answers flow.0 recv_tag)) [
      | inl a ↦ inl (Gets-first recv_tag events earlier flow later q a)
      | inr a ↦ elim (split recv_tag later) [
        | inl r ↦
            let quiet = All-append _ earlier (flow ∷ later) q (a, r) in
            rw (handed-unclaimed recv_tag events (earlier ++ (flow ∷ later)) quiet)
              (handed_lem events earlier flow later (ground (arith, h, a)))
        | inr s ↦
            let front = earlier ++ (flow ∷ s.earlier) in
            let shape =
              ap (λ l. earlier ++ (flow ∷ l)) s.shape
              ∙ sym (append_assoc earlier (flow ∷ s.earlier) (s.flow ∷ s.later)) in
            let v = handed_lem events earlier flow (s.earlier ++ s.later) (ground (arith, h, a)) in
            Served-other recv_tag events _ front s.flow s.later flow.1 shape
              (All-append _ earlier (flow ∷ s.earlier) q (a, s.unanswered)) s.answered
              (subst (λ l. Served flow.1 (handed events l))
                (sym (append_assoc earlier (flow ∷ s.earlier) s.later)) v)
      ]
    ]
  ]
