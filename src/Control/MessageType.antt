-- ===== src/Control/MessageType.antt =====
-- mctp-base-lib/src/control/enums.rs: the message types.
use mctp_emu.Prelude.{ℕ, ◌≡◌, refl, List, [], ◌∷◌, some}
use mctp_emu.Crates.{Crates, ReprU8, find_variant}

pub data MessageType : Type 0 where
  control pldm ncsi_over_mctp ethernet_over_mctp nvm_express_over_mctp spdm_over_mctp : MessageType
  secured_messages cxl_fm_api_over_mctp cxl_cci_over_mctp vendor_defined_pci : MessageType
  vendor_defined_iana invalid : MessageType

-- The discriminants: `self as u8`.
abbrev pub message_type_as_u8 : MessageType → ℕ
message_type_as_u8 control = 0x00
message_type_as_u8 pldm = 0x01
message_type_as_u8 ncsi_over_mctp = 0x02
message_type_as_u8 ethernet_over_mctp = 0x03
message_type_as_u8 nvm_express_over_mctp = 0x04
message_type_as_u8 spdm_over_mctp = 0x05
message_type_as_u8 secured_messages = 0x06
message_type_as_u8 cxl_fm_api_over_mctp = 0x07
message_type_as_u8 cxl_cci_over_mctp = 0x08
message_type_as_u8 vendor_defined_pci = 0x7e
message_type_as_u8 vendor_defined_iana = 0x7f
message_type_as_u8 invalid = 0xff

abbrev message_type_variants : List MessageType
message_type_variants =
    control ∷ pldm ∷ ncsi_over_mctp ∷ ethernet_over_mctp ∷ nvm_express_over_mctp ∷ spdm_over_mctp
    ∷ secured_messages ∷ cxl_fm_api_over_mctp ∷ cxl_cci_over_mctp ∷ vendor_defined_pci
    ∷ vendor_defined_iana ∷ invalid ∷ []

pub message_type_known :
    (e : MessageType)
    → find_variant message_type_as_u8 message_type_variants (message_type_as_u8 e) ≡ some e
message_type_known control = refl
message_type_known _ = refl

abbrev pub message_type_repr : ReprU8 MessageType
message_type_repr = record {
  as_u8 = message_type_as_u8;
  variants = message_type_variants;
  default_variant = invalid;
  known = message_type_known;
}

-- `MessageType::from(u8)`.
abbrev pub message_type_from : ⦃c : Crates⦄ → ℕ → MessageType
message_type_from ⦃c⦄ n = c.from_u8 MessageType message_type_repr n
