-- ===== src/Control/AllocateEids/Enums.antt =====
-- mctp-base-lib/src/control/allocate_eids.rs: the enums of the message.
use mctp_emu.Prelude.{ℕ, ◌≡◌, refl, List, [], ◌∷◌, some}
use mctp_emu.Crates.{Crates, ReprU8, find_variant}

pub data Operation : Type 0 where
  allocate_eids force_allocation get_allocation_info : Operation

-- The discriminants: `self as u8`.
abbrev pub operation_as_u8 : Operation → ℕ
operation_as_u8 allocate_eids = 0x00
operation_as_u8 force_allocation = 0x01
operation_as_u8 get_allocation_info = 0x02

abbrev operation_variants : List Operation
operation_variants = allocate_eids ∷ force_allocation ∷ get_allocation_info ∷ []

pub operation_known :
    (e : Operation) → find_variant operation_as_u8 operation_variants (operation_as_u8 e) ≡ some e
operation_known allocate_eids = refl
operation_known _ = refl

abbrev pub operation_repr : ReprU8 Operation
operation_repr = record {
  as_u8 = operation_as_u8;
  variants = operation_variants;
  default_variant = allocate_eids;
  known = operation_known;
}

-- `Operation::from(u8)`.
abbrev pub operation_from : ⦃c : Crates⦄ → ℕ → Operation
operation_from ⦃c⦄ n = c.from_u8 Operation operation_repr n

pub data AllocationStatus : Type 0 where
  allocation_accepted allocation_rejected : AllocationStatus

-- The discriminants: `self as u8`.
abbrev pub allocation_status_as_u8 : AllocationStatus → ℕ
allocation_status_as_u8 allocation_accepted = 0x00
allocation_status_as_u8 allocation_rejected = 0x01

abbrev allocation_status_variants : List AllocationStatus
allocation_status_variants = allocation_accepted ∷ allocation_rejected ∷ []

pub allocation_status_known :
    (e : AllocationStatus)
    → find_variant allocation_status_as_u8 allocation_status_variants (allocation_status_as_u8 e)
      ≡ some e
allocation_status_known allocation_accepted = refl
allocation_status_known _ = refl

abbrev pub allocation_status_repr : ReprU8 AllocationStatus
allocation_status_repr = record {
  as_u8 = allocation_status_as_u8;
  variants = allocation_status_variants;
  default_variant = allocation_rejected;
  known = allocation_status_known;
}

-- `AllocationStatus::from(u8)`.
abbrev pub allocation_status_from : ⦃c : Crates⦄ → ℕ → AllocationStatus
allocation_status_from ⦃c⦄ n = c.from_u8 AllocationStatus allocation_status_repr n
