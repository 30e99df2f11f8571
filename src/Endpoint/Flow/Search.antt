-- ===== src/Endpoint/Flow/Search.antt =====
-- The search for a flow as the code runs it: `while index < flows.len()`, with an index into the list.
use mctp_emu.Prelude.{
  ℕ, zero, suc, ◌+◌, ◌<◌, ◌≡◌, refl, ap, ◌∙◌, List, [], ◌∷◌, ◌++◌, Option, none, some, ltb, length,
  get_elem?, if◌then◌else◌, arith, inl, inr, Bool-cases, lt→ltb, le→ltb, append_assoc,
  length-append, append-nil,
}
use mctp_emu.Endpoint.Flow.{MsgFlowTag, answers, find_flow}

-- How the loop ends: with its index, with a panic at an index that is out of bounds, or not within the
-- rounds that it was given.
pub data Search : Type 0 where
  ended : (index : ℕ) → Search
  out_of_bounds : Search
  out_of_fuel : Search

module _ {S : Type 0} (recv_tag : MsgFlowTag) (flows : List (MsgFlowTag × S)) where
  -- What a round does with the flow at its index; `rest` is the loop from the next index on.
  abbrev pub probe : (index : ℕ) (rest : Search) → Option (MsgFlowTag × S) → Search
  probe index rest none = out_of_bounds
  probe index rest (some (tag, resp)) = if answers tag recv_tag then ended index else rest

  -- The loop from an index on.
  unfoldable pub search : (fuel index : ℕ) → Search
  search zero index = out_of_fuel
  search (suc fuel) index =
      let rest = search fuel (index + 1) in
      if ltb index (length flows) then probe index rest (get_elem? flows index) else ended index

get_elem?-append {ℓ} :
    {A : Type ℓ} (xs : List A) (y : A) (ys : List A)
    → get_elem? (xs ++ (y ∷ ys)) (length xs) ≡ some y
get_elem?-append [] y ys = refl
get_elem?-append (x ∷ xs) y ys = get_elem?-append xs y ys

module _ {S : Type 0} (recv_tag : MsgFlowTag) where
  search-from :
      (earlier later : List (MsgFlowTag × S)) (fuel : ℕ)
      → length later < fuel
      → search recv_tag (earlier ++ later) fuel (length earlier)
        ≡ ended (length earlier + find_flow recv_tag later)
  unfolding search find_flow
  search-from earlier later zero h = absurd (omega arith)
  search-from earlier [] (suc fuel) h =
      rw (append-nil, le→ltb (length earlier) (length earlier) (omega arith))
        (ap ended (omega arith))
  search-from earlier ((tag, resp) ∷ later) (suc fuel) h =
      let inside =
        lt→ltb (length earlier) (length (earlier ++ ((tag, resp) ∷ later)))
          (omega (arith, length-append earlier ((tag, resp) ∷ later))) in
      let small : length later < fuel = omega (arith, h) in
      let zero_more : length earlier ≡ length earlier + 0 = omega arith in
      let one_more : length earlier + 1 + find_flow recv_tag later
          ≡ length earlier + suc (find_flow recv_tag later) =
        omega arith in
      let next : search recv_tag (earlier ++ ((tag, resp) ∷ later)) fuel (length earlier + 1)
          ≡ ended (length earlier + 1 + find_flow recv_tag later) =
        let here : List (MsgFlowTag × S) = (tag, resp) ∷ [] in
        rw (append_assoc earlier here later, length-append earlier here) at
          (search-from (earlier ++ here) later fuel small) in
      elim (Bool-cases (answers tag recv_tag)) [
        | inl e ↦ rw (inside, get_elem?-append earlier (tag, resp) later, e) (ap ended zero_more)
        | inr e ↦
            rw (inside, get_elem?-append earlier (tag, resp) later, e) (next ∙ ap ended one_more)
      ]

  -- The search ends, within one round more than there are flows, and without an index out of bounds, at
  -- the first flow that the packet answers, or else behind the last one.
  pub search_lem :
      (flows : List (MsgFlowTag × S)) (fuel : ℕ)
      → length flows < fuel
      → search recv_tag flows fuel 0 ≡ ended (find_flow recv_tag flows)
  search_lem flows fuel h = search-from [] flows fuel h ∙ ap ended (omega arith)
