-- ===== src/Endpoint/Flow/Tests.antt =====
-- Pending flows, and the theorems on them at concrete packets.
use mctp_emu.Prelude.{
  ℕ, ◌≡◌, ◌⊎◌, refl, List, [], ◌∷◌, ◌++◌, some, none, true, false, arith, Bool, not, ◌==◌,
}
use mctp_emu.Crates.Reference.{reference}
use mctp_emu.Endpoint.Flow.{MsgFlowTag, create_tag, answers, find_flow, remove, take_flow}
use mctp_emu.Endpoint.Flow.Search.{ended, search, search_lem}
use mctp_emu.Endpoint.Flow.Matching.{NoAnswer, Split, take_flow_lem}
use mctp_emu.Endpoint.Flow.Order.{Event, added, packet, handed, hits, Gets, Broken, handed_lem}

abbrev waiting : (dest_eid msg_tag : ℕ) → MsgFlowTag
waiting dest_eid msg_tag = record {
  dest_eid = dest_eid;
  src_eid = 8;
  msg_tag = msg_tag;
  tag_owner = true;
}

abbrev response_tag : MsgFlowTag
response_tag = record { dest_eid = 8; src_eid = 10; msg_tag = 2; tag_owner = false }

-- Flows that await their responses on the channels 100 to 102.
abbrev pending : List (MsgFlowTag × ℕ)
pending = (waiting 10 1, 100) ∷ (waiting 10 2, 101) ∷ (waiting 10 2, 102) ∷ []

-- The older of two flows that fit is taken.
oldest_first :
    take_flow response_tag pending
    ≡ some ((waiting 10 2, 101), (waiting 10 1, 100) ∷ (waiting 10 2, 102) ∷ [])
unfolding take_flow find_flow remove answers
oldest_first = refl

-- A packet cut before its header is complete has the default tag.
short_tag :
    create_tag (1 ∷ 2 ∷ [])
    ≡ some (record { dest_eid = 0; src_eid = 0; msg_tag = 0; tag_owner = false })
unfolding create_tag
short_tag = refl

take_flow_lem_example :
    (NoAnswer response_tag pending × (take_flow response_tag pending ≡ none))
    ⊎ ((s : Split response_tag pending) × (take_flow response_tag pending
          ≡ some (s.flow, s.earlier ++ s.later)))
take_flow_lem_example = take_flow_lem response_tag pending

search_lem_example : search response_tag pending 4 0 ≡ ended (find_flow response_tag pending)
search_lem_example = search_lem response_tag pending 4 (omega arith)

abbrev reply : List ℕ
reply = 1 ∷ 8 ∷ 10 ∷ 0xc2 ∷ 0 ∷ 5 ∷ 2 ∷ 0 ∷ 0 ∷ 0 ∷ 0 ∷ []

-- A packet, a flow that is added, and another packet.
abbrev events : List (Event ℕ)
events = packet response_tag ∷ added (waiting 10 2, 103) ∷ packet response_tag ∷ []

abbrev same_tag : List (MsgFlowTag × ℕ)
same_tag = (waiting 10 2, 101) ∷ []

-- All channels but one are listened to.
abbrev heard : ℕ → Bool
heard resp = not (resp == 104)

-- The second of two flows that fit gets the second answer, though a third is added in between.
handed_lem_example :
    let channels = handed heard events (same_tag ++ ((waiting 10 2, 102) ∷ pending)) in
    Gets {S = ℕ} 102 channels ⊎ Broken heard channels
unfolding hits answers
handed_lem_example = handed_lem heard events same_tag (waiting 10 2, 102) pending (omega arith)
