-- ===== src/Control/GetEid/Enums.antt =====
-- mctp-base-lib/src/control/get_eid.rs: the enums of the message.
use mctp_emu.Prelude.{ℕ, ◌≡◌, refl, List, [], ◌∷◌, some}
use mctp_emu.Crates.{Crates, ReprU8, find_variant}

pub data EidType : Type 0 where
  dynamic static_supported_with_present_eid_returned static_match static_mismatch : EidType

-- The discriminants: `self as u8`.
abbrev pub eid_type_as_u8 : EidType → ℕ
eid_type_as_u8 dynamic = 0x00
eid_type_as_u8 static_supported_with_present_eid_returned = 0x01
eid_type_as_u8 static_match = 0x02
eid_type_as_u8 static_mismatch = 0x03

abbrev eid_type_variants : List EidType
eid_type_variants =
    dynamic ∷ static_supported_with_present_eid_returned ∷ static_match ∷ static_mismatch ∷ []

pub eid_type_known :
    (e : EidType) → find_variant eid_type_as_u8 eid_type_variants (eid_type_as_u8 e) ≡ some e
eid_type_known dynamic = refl
eid_type_known _ = refl

abbrev pub eid_type_repr : ReprU8 EidType
eid_type_repr = record {
  as_u8 = eid_type_as_u8;
  variants = eid_type_variants;
  default_variant = dynamic;
  known = eid_type_known;
}

-- `EidType::from(u8)`.
abbrev pub eid_type_from : ⦃c : Crates⦄ → ℕ → EidType
eid_type_from ⦃c⦄ n = c.from_u8 EidType eid_type_repr n

pub data EndpointType : Type 0 where
  simple bus_owner_or_bridge : EndpointType

-- The discriminants: `self as u8`.
abbrev pub endpoint_type_as_u8 : EndpointType → ℕ
endpoint_type_as_u8 simple = 0x00
endpoint_type_as_u8 bus_owner_or_bridge = 0x01

abbrev endpoint_type_variants : List EndpointType
endpoint_type_variants = simple ∷ bus_owner_or_bridge ∷ []

pub endpoint_type_known :
    (e : EndpointType)
    → find_variant endpoint_type_as_u8 endpoint_type_variants (endpoint_type_as_u8 e) ≡ some e
endpoint_type_known simple = refl
endpoint_type_known _ = refl

abbrev pub endpoint_type_repr : ReprU8 EndpointType
endpoint_type_repr = record {
  as_u8 = endpoint_type_as_u8;
  variants = endpoint_type_variants;
  default_variant = simple;
  known = endpoint_type_known;
}

-- `EndpointType::from(u8)`.
abbrev pub endpoint_type_from : ⦃c : Crates⦄ → ℕ → EndpointType
endpoint_type_from ⦃c⦄ n = c.from_u8 EndpointType endpoint_type_repr n
