-- ===== src/Control/Medium.antt =====
-- mctp-base-lib/src/control/enums.rs: physical media and transport bindings.
use mctp_emu.Prelude.{ℕ, ◌≡◌, refl, List, [], ◌∷◌, some}
use mctp_emu.Crates.{Crates, ReprU8, find_variant}

pub data PhysicalMediumIdentifier : Type 0 where
  unspecified smbus_2_0_100khz smbus_2_0_i2c_100khz i2c_100khz smbus_3_0_i2c_400khz :
      PhysicalMediumIdentifier
  smbus_3_0_i2c_1mhz i2c_3_4mhz pcie_rev_1_1 pcie_rev_2_0 pcie_rev_2_1 pcie_rev_3 pcie_rev_4 :
      PhysicalMediumIdentifier
  pcie_rev_5 pci_compatible usb_1_1 usb_2 usb_3 ncsi_over_rbt kcs_legacy kcs_pci :
      PhysicalMediumIdentifier
  serial_host_legacy serial_host_pci async_serial i3c_basic : PhysicalMediumIdentifier

-- The discriminants: `self as u8`.
abbrev pub physical_medium_identifier_as_u8 : PhysicalMediumIdentifier → ℕ
physical_medium_identifier_as_u8 unspecified = 0x00
physical_medium_identifier_as_u8 smbus_2_0_100khz = 0x01
physical_medium_identifier_as_u8 smbus_2_0_i2c_100khz = 0x02
physical_medium_identifier_as_u8 i2c_100khz = 0x03
physical_medium_identifier_as_u8 smbus_3_0_i2c_400khz = 0x04
physical_medium_identifier_as_u8 smbus_3_0_i2c_1mhz = 0x05
physical_medium_identifier_as_u8 i2c_3_4mhz = 0x06
physical_medium_identifier_as_u8 pcie_rev_1_1 = 0x08
physical_medium_identifier_as_u8 pcie_rev_2_0 = 0x09
physical_medium_identifier_as_u8 pcie_rev_2_1 = 0x0a
physical_medium_identifier_as_u8 pcie_rev_3 = 0x0b
physical_medium_identifier_as_u8 pcie_rev_4 = 0x0c
physical_medium_identifier_as_u8 pcie_rev_5 = 0x0d
physical_medium_identifier_as_u8 pci_compatible = 0x0f
physical_medium_identifier_as_u8 usb_1_1 = 0x10
physical_medium_identifier_as_u8 usb_2 = 0x11
physical_medium_identifier_as_u8 usb_3 = 0x12
physical_medium_identifier_as_u8 ncsi_over_rbt = 0x18
physical_medium_identifier_as_u8 kcs_legacy = 0x20
physical_medium_identifier_as_u8 kcs_pci = 0x21
physical_medium_identifier_as_u8 serial_host_legacy = 0x22
physical_medium_identifier_as_u8 serial_host_pci = 0x23
physical_medium_identifier_as_u8 async_serial = 0x24
physical_medium_identifier_as_u8 i3c_basic = 0x30

abbrev physical_medium_identifier_variants : List PhysicalMediumIdentifier
physical_medium_identifier_variants =
    unspecified ∷ smbus_2_0_100khz ∷ smbus_2_0_i2c_100khz ∷ i2c_100khz ∷ smbus_3_0_i2c_400khz
    ∷ smbus_3_0_i2c_1mhz ∷ i2c_3_4mhz ∷ pcie_rev_1_1 ∷ pcie_rev_2_0 ∷ pcie_rev_2_1 ∷ pcie_rev_3
    ∷ pcie_rev_4 ∷ pcie_rev_5 ∷ pci_compatible ∷ usb_1_1 ∷ usb_2 ∷ usb_3 ∷ ncsi_over_rbt
    ∷ kcs_legacy ∷ kcs_pci ∷ serial_host_legacy ∷ serial_host_pci ∷ async_serial ∷ i3c_basic ∷ []

pub physical_medium_identifier_known :
    (e : PhysicalMediumIdentifier)
    → find_variant physical_medium_identifier_as_u8 physical_medium_identifier_variants
        (physical_medium_identifier_as_u8 e)
      ≡ some e
physical_medium_identifier_known unspecified = refl
physical_medium_identifier_known _ = refl

abbrev pub physical_medium_identifier_repr : ReprU8 PhysicalMediumIdentifier
physical_medium_identifier_repr = record {
  as_u8 = physical_medium_identifier_as_u8;
  variants = physical_medium_identifier_variants;
  default_variant = unspecified;
  known = physical_medium_identifier_known;
}

-- `PhysicalMediumIdentifier::from(u8)`.
abbrev pub physical_medium_identifier_from : ⦃c : Crates⦄ → ℕ → PhysicalMediumIdentifier
physical_medium_identifier_from ⦃c⦄ n =
    c.from_u8 PhysicalMediumIdentifier physical_medium_identifier_repr n

pub data PhysicalTransportBinding : Type 0 where
  reserved mctpover_smbus mctpover_pcie_vdm mctpover_kcs mctpover_serial mctpover_i3c :
      PhysicalTransportBinding
  vendor_defined : PhysicalTransportBinding

-- The discriminants: `self as u8`.
abbrev pub physical_transport_binding_as_u8 : PhysicalTransportBinding → ℕ
physical_transport_binding_as_u8 reserved = 0x00
physical_transport_binding_as_u8 mctpover_smbus = 0x01
physical_transport_binding_as_u8 mctpover_pcie_vdm = 0x02
physical_transport_binding_as_u8 mctpover_kcs = 0x04
physical_transport_binding_as_u8 mctpover_serial = 0x05
physical_transport_binding_as_u8 mctpover_i3c = 0x06
physical_transport_binding_as_u8 vendor_defined = 0xff

abbrev physical_transport_binding_variants : List PhysicalTransportBinding
physical_transport_binding_variants =
    reserved ∷ mctpover_smbus ∷ mctpover_pcie_vdm ∷ mctpover_kcs ∷ mctpover_serial ∷ mctpover_i3c
    ∷ vendor_defined ∷ []

pub physical_transport_binding_known :
    (e : PhysicalTransportBinding)
    → find_variant physical_transport_binding_as_u8 physical_transport_binding_variants
        (physical_transport_binding_as_u8 e)
      ≡ some e
physical_transport_binding_known reserved = refl
physical_transport_binding_known _ = refl

abbrev pub physical_transport_binding_repr : ReprU8 PhysicalTransportBinding
physical_transport_binding_repr = record {
  as_u8 = physical_transport_binding_as_u8;
  variants = physical_transport_binding_variants;
  default_variant = vendor_defined;
  known = physical_transport_binding_known;
}

-- `PhysicalTransportBinding::from(u8)`.
abbrev pub physical_transport_binding_from : ⦃c : Crates⦄ → ℕ → PhysicalTransportBinding
physical_transport_binding_from ⦃c⦄ n =
    c.from_u8 PhysicalTransportBinding physical_transport_binding_repr n
