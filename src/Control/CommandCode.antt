-- ===== src/Control/CommandCode.antt =====
-- mctp-base-lib/src/control/enums.rs: the command codes of control messages.
use mctp_emu.Prelude.{ℕ, ◌≡◌, refl, List, [], ◌∷◌, some}
use mctp_emu.Crates.{Crates, ReprU8, find_variant}

pub data CommandCode : Type 0 where
  reserved set_endpoint_id get_endpoint_id get_endpoint_uuid get_mctp_version_support : CommandCode
  get_message_type_support get_vendor_defined_message_support resolve_endpoint_id : CommandCode
  allocate_endpoint_ids routing_information_update get_routing_table_entries : CommandCode
  prepare_for_endpoint_discovery endpoint_discovery discovery_notify get_network_id query_hop :
      CommandCode
  resolve_uuid query_rate_limit request_tx_rate_limit update_rate_limit : CommandCode
  query_supported_interfaces unknown : CommandCode

-- The discriminants: `self as u8`.
abbrev pub command_code_as_u8 : CommandCode → ℕ
command_code_as_u8 reserved = 0x00
command_code_as_u8 set_endpoint_id = 0x01
command_code_as_u8 get_endpoint_id = 0x02
command_code_as_u8 get_endpoint_uuid = 0x03
command_code_as_u8 get_mctp_version_support = 0x04
command_code_as_u8 get_message_type_support = 0x05
command_code_as_u8 get_vendor_defined_message_support = 0x06
command_code_as_u8 resolve_endpoint_id = 0x07
command_code_as_u8 allocate_endpoint_ids = 0x08
command_code_as_u8 routing_information_update = 0x09
command_code_as_u8 get_routing_table_entries = 0x0a
command_code_as_u8 prepare_for_endpoint_discovery = 0x0b
command_code_as_u8 endpoint_discovery = 0x0c
command_code_as_u8 discovery_notify = 0x0d
command_code_as_u8 get_network_id = 0x0e
command_code_as_u8 query_hop = 0x0f
command_code_as_u8 resolve_uuid = 0x10
command_code_as_u8 query_rate_limit = 0x11
command_code_as_u8 request_tx_rate_limit = 0x12
command_code_as_u8 update_rate_limit = 0x13
command_code_as_u8 query_supported_interfaces = 0x14
command_code_as_u8 unknown = 0xff

abbrev command_code_variants : List CommandCode
command_code_variants =
    reserved ∷ set_endpoint_id ∷ get_endpoint_id ∷ get_endpoint_uuid ∷ get_mctp_version_support
    ∷ get_message_type_support ∷ get_vendor_defined_message_support ∷ resolve_endpoint_id
    ∷ allocate_endpoint_ids ∷ routing_information_update ∷ get_routing_table_entries
    ∷ prepare_for_endpoint_discovery ∷ endpoint_discovery ∷ discovery_notify ∷ get_network_id
    ∷ query_hop ∷ resolve_uuid ∷ query_rate_limit ∷ request_tx_rate_limit ∷ update_rate_limit
    ∷ query_supported_interfaces ∷ unknown ∷ []

pub command_code_known :
    (e : CommandCode)
    → find_variant command_code_as_u8 command_code_variants (command_code_as_u8 e) ≡ some e
command_code_known reserved = refl
command_code_known _ = refl

abbrev pub command_code_repr : ReprU8 CommandCode
command_code_repr = record {
  as_u8 = command_code_as_u8;
  variants = command_code_variants;
  default_variant = unknown;
  known = command_code_known;
}

-- `CommandCode::from(u8)`.
abbrev pub command_code_from : ⦃c : Crates⦄ → ℕ → CommandCode
command_code_from ⦃c⦄ n = c.from_u8 CommandCode command_code_repr n
