-- ===== src/Endpoint/Flow/Matching.antt =====
-- Which pending flow a received packet is handed to.
use mctp_emu.Prelude.{
  ℕ, suc, ◌/◌, ◌%◌, ◌≡◌, refl, ap, ◌∙◌, List, [], ◌∷◌, ◌++◌, none, some, true, false, not, ◌==◌,
  length, All, arith, ◌⊎◌, inl, inr, Bool-cases, ==_iff, IsByte, le→ltb, length-append,
}
use mctp_emu.Crates.{Crates}
use mctp_emu.Base.TransportHeader.Fields.{flags_fields}
use mctp_emu.Control.Payload.Parse.{try_from-header, header_of}
use mctp_emu.Endpoint.Flow.{MsgFlowTag, create_tag, answers, find_flow, remove, take_flow}

module _ {S : Type 0} (recv_tag : MsgFlowTag) where
  -- No flow of the list is answered.
  abbrev pub NoAnswer : List (MsgFlowTag × S) → Type 0
  NoAnswer flows = All (λ flow. answers flow.0 recv_tag ≡ false) flows

  find_flow-NoAnswer :
      (flows : List (MsgFlowTag × S)) → NoAnswer flows → find_flow recv_tag flows ≡ length flows
  unfolding find_flow
  find_flow-NoAnswer [] h = refl
  find_flow-NoAnswer ((tag, resp) ∷ flows) h = rw (h.0) (ap suc (find_flow-NoAnswer flows h.1))

  find_flow-append :
      (earlier : List (MsgFlowTag × S)) (flow : MsgFlowTag × S) (later : List (MsgFlowTag × S))
      → NoAnswer earlier
      → answers flow.0 recv_tag ≡ true
      → find_flow recv_tag (earlier ++ (flow ∷ later)) ≡ length earlier
  unfolding find_flow
  find_flow-append [] flow later h e = rw e
  find_flow-append ((tag, resp) ∷ earlier) flow later h e =
      rw (h.0) (ap suc (find_flow-append earlier flow later h.1 e))

module _ {S : Type 0} where
  remove-append :
      (earlier : List (MsgFlowTag × S)) (flow : MsgFlowTag × S) (later : List (MsgFlowTag × S))
      → remove (length earlier) (earlier ++ (flow ∷ later)) ≡ some (flow, earlier ++ later)
  unfolding remove
  remove-append [] flow later = refl
  remove-append (x ∷ earlier) flow later = rw (remove-append earlier flow later)

-- The pending flows, cut at the first one that a packet answers.
pub record Split {S : Type 0} (recv_tag : MsgFlowTag) (flows : List (MsgFlowTag × S)) : Type 0 where
  pub earlier : List (MsgFlowTag × S)
  pub flow : MsgFlowTag × S
  pub later : List (MsgFlowTag × S)
  pub shape : flows ≡ earlier ++ (flow ∷ later)
  pub unanswered : NoAnswer recv_tag earlier
  pub answered : answers flow.0 recv_tag ≡ true

module _ {S : Type 0} (recv_tag : MsgFlowTag) where
  pub split : (flows : List (MsgFlowTag × S)) → NoAnswer recv_tag flows ⊎ Split recv_tag flows
  split [] = inl tt
  split (x ∷ flows) = go (Bool-cases (answers x.0 recv_tag)) (split flows)
    where
      go :
          ((answers x.0 recv_tag ≡ true) ⊎ (answers x.0 recv_tag ≡ false))
          → (NoAnswer recv_tag flows ⊎ Split recv_tag flows)
          → NoAnswer recv_tag (x ∷ flows) ⊎ Split recv_tag (x ∷ flows)
      go (inl e) _ = inr (record {
        earlier = [];
        flow = x;
        later = flows;
        shape = refl;
        unanswered = tt;
        answered = e;
      })
      go (inr e) (inl none_answered) = inl (e, none_answered)
      go (inr e) (inr s) = inr (record {
        earlier = x ∷ s.earlier;
        flow = s.flow;
        later = s.later;
        shape = ap (◌∷◌ x) s.shape;
        unanswered = (e, s.unanswered);
        answered = s.answered;
      })

  pub take_flow-NoAnswer :
      (flows : List (MsgFlowTag × S)) → NoAnswer recv_tag flows → take_flow recv_tag flows ≡ none
  unfolding take_flow
  take_flow-NoAnswer flows h =
      rw (find_flow-NoAnswer recv_tag flows h, (==_iff (length flows) (length flows)).1 refl)

  pub take_flow-append :
      (earlier : List (MsgFlowTag × S)) (flow : MsgFlowTag × S) (later : List (MsgFlowTag × S))
      → NoAnswer recv_tag earlier
      → answers flow.0 recv_tag ≡ true
      → take_flow recv_tag (earlier ++ (flow ∷ later)) ≡ some (flow, earlier ++ later)
  unfolding take_flow
  take_flow-append earlier flow later h e =
      let found = find_flow-append recv_tag earlier flow later h e in
      let inside : (length earlier == length (earlier ++ (flow ∷ later))) ≡ false =
        ground (arith, length-append earlier (flow ∷ later)) in
      rw (found, inside) (remove-append earlier flow later)

  -- A packet that answers no pending flow leaves them all; one that answers some is handed to the first
  -- of them, in the order of sending, and that flow alone is removed.
  pub take_flow_lem :
      (flows : List (MsgFlowTag × S))
      → (NoAnswer recv_tag flows × (take_flow recv_tag flows ≡ none))
        ⊎ ((s : Split recv_tag flows) × (take_flow recv_tag flows
              ≡ some (s.flow, s.earlier ++ s.later)))
  take_flow_lem flows = elim (split flows) [
    | inl h ↦ inl (h, take_flow-NoAnswer flows h)
    | inr s ↦ inr (
      s,
      ap (take_flow recv_tag) s.shape
          ∙ take_flow-append s.earlier s.flow s.later s.unanswered s.answered,
    )
  ]

module _ ⦃c : Crates⦄ where
  -- The tag of a packet whose transport header is complete.
  pub create_tag_lem :
      (v d s b : ℕ) (rest : List ℕ)
      → IsByte b
      → create_tag (v ∷ d ∷ s ∷ b ∷ rest)
        ≡ some (record {
          dest_eid = d;
          src_eid = s;
          msg_tag = b % 8;
          tag_owner = not (b / 8 % 2 == 0);
        })
  unfolding create_tag
  create_tag_lem v d s b rest h =
      let f = flags_fields (header_of v d s b) h in
      rw (
        le→ltb (length (v ∷ d ∷ s ∷ b ∷ rest)) 4 (omega arith),
        try_from-header v d s b rest,
        f.0,
        f.1,
      )
