-- ===== src/Endpoint/Flow.antt =====
-- src/endpoint/types.rs, and the flow tracking that src/network/simple_network.rs and
-- examples/basic_bus_owner_loop.rs share: the tag of a packet, and the pending flow that it answers.
pub mod Matching
pub mod Correlation
pub mod Order
pub mod Search
pub mod Tests
use mctp_emu.Prelude.{
  ℕ, zero, suc, List, [], ◌∷◌, Option, none, some, Bool, false, ◌&&◌, not, ltb, ◌==◌, same, length,
  if◌then◌else◌,
}
use mctp_emu.Crates.{Crates}
use mctp_emu.Base.Errors.{Result, ok, err}
use mctp_emu.Base.Wire.{try_from}
use mctp_emu.Base.TransportHeader
use mctp_emu.Base.TransportHeader.{TransportHeader, msg_tag, tag_owner}

pub record MsgFlowTag : Type 0 where
  pub dest_eid : ℕ
  pub src_eid : ℕ
  pub msg_tag : ℕ
  pub tag_owner : Bool

-- `MsgFlowTag::default()`.
abbrev pub default_tag : MsgFlowTag
default_tag = record { dest_eid = 0; src_eid = 0; msg_tag = 0; tag_owner = false }

module _ ⦃c : Crates⦄ where
  abbrev pub tag_of : Result TransportHeader → Option MsgFlowTag
  tag_of (ok hdr) = some (record {
    dest_eid = hdr.destination_eid;
    src_eid = hdr.source_eid;
    msg_tag = TransportHeader.msg_tag hdr;
    tag_owner = not (TransportHeader.tag_owner hdr == 0);
  })
  tag_of (err e) = none

  -- `create_tag`.
  unfoldable pub create_tag : List ℕ → Option MsgFlowTag
  create_tag bytes =
      if ltb (length bytes) 4
      then some default_tag
      else tag_of (try_from TransportHeader.wire bytes)

-- Whether a received tag answers the flow of a sent one.
unfoldable pub answers : (tag recv_tag : MsgFlowTag) → Bool
answers tag recv_tag =
    (tag.msg_tag == recv_tag.msg_tag)
    && (not (same tag.tag_owner recv_tag.tag_owner) && (tag.dest_eid == recv_tag.src_eid))

-- A flow is a tag with the channel on which its response is awaited.
module _ {S : Type 0} where
  -- `while index < flows.len()`: the index of the first flow that is answered, or the length.
  unfoldable pub find_flow : MsgFlowTag → List (MsgFlowTag × S) → ℕ
  find_flow recv_tag [] = 0
  find_flow recv_tag ((tag, resp) ∷ flows) =
      let rest = find_flow recv_tag flows in if answers tag recv_tag then 0 else suc rest

  -- `Vec::remove(index)`; `none` is out of bounds.
  unfoldable pub remove :
      ℕ → List (MsgFlowTag × S) → Option ((MsgFlowTag × S) × List (MsgFlowTag × S))
  remove i [] = none
  remove zero (flow ∷ flows) = some (flow, flows)
  remove (suc i) (flow ∷ flows) = elim (remove i flows) [
    | none ↦ none
    | some (found, rest) ↦ some (found, flow ∷ rest)
  ]

  -- The flow that a received packet answers, with the flows that stay pending.
  unfoldable pub take_flow :
      MsgFlowTag → List (MsgFlowTag × S) → Option ((MsgFlowTag × S) × List (MsgFlowTag × S))
  take_flow recv_tag flows =
      let index = find_flow recv_tag flows in
      if not (index == length flows) then remove index flows else none
