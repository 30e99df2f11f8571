-- ===== src/Control/SetEid/Enums.antt =====
-- mctp-base-lib/src/control/set_eid.rs: the enums of the message.
use mctp_emu.Prelude.{ℕ, ◌≡◌, refl, List, [], ◌∷◌, some}
use mctp_emu.Crates.{Crates, ReprU8, find_variant}

pub data Operation : Type 0 where
  set_eid force_eid reset_eid set_discovered_flag : Operation

-- The discriminants: `self as u8`.
abbrev pub operation_as_u8 : Operation → ℕ
operation_as_u8 set_eid = 0x00
operation_as_u8 force_eid = 0x01
operation_as_u8 reset_eid = 0x02
operation_as_u8 set_discovered_flag = 0x03

abbrev operation_variants : List Operation
operation_variants = set_eid ∷ force_eid ∷ reset_eid ∷ set_discovered_flag ∷ []

pub operation_known :
    (e : Operation) → find_variant operation_as_u8 operation_variants (operation_as_u8 e) ≡ some e
operation_known set_eid = refl
operation_known _ = refl

abbrev pub operation_repr : ReprU8 Operation
operation_repr = record {
  as_u8 = operation_as_u8;
  variants = operation_variants;
  default_variant = set_eid;
  known = operation_known;
}

-- `Operation::from(u8)`.
abbrev pub operation_from : ⦃c : Crates⦄ → ℕ → Operation
operation_from ⦃c⦄ n = c.from_u8 Operation operation_repr n

pub data EidAssignmentStatus : Type 0 where
  accepted rejected : EidAssignmentStatus

-- The discriminants: `self as u8`.
abbrev pub eid_assignment_status_as_u8 : EidAssignmentStatus → ℕ
eid_assignment_status_as_u8 accepted = 0x00
eid_assignment_status_as_u8 rejected = 0x01

abbrev eid_assignment_status_variants : List EidAssignmentStatus
eid_assignment_status_variants = accepted ∷ rejected ∷ []

pub eid_assignment_status_known :
    (e : EidAssignmentStatus)
    → find_variant eid_assignment_status_as_u8 eid_assignment_status_variants
        (eid_assignment_status_as_u8 e)
      ≡ some e
eid_assignment_status_known accepted = refl
eid_assignment_status_known _ = refl

abbrev pub eid_assignment_status_repr : ReprU8 EidAssignmentStatus
eid_assignment_status_repr = record {
  as_u8 = eid_assignment_status_as_u8;
  variants = eid_assignment_status_variants;
  default_variant = rejected;
  known = eid_assignment_status_known;
}

-- `EidAssignmentStatus::from(u8)`.
abbrev pub eid_assignment_status_from : ⦃c : Crates⦄ → ℕ → EidAssignmentStatus
eid_assignment_status_from ⦃c⦄ n = c.from_u8 EidAssignmentStatus eid_assignment_status_repr n

pub data EidAllocationStatus : Type 0 where
  no_pool_support requires_pool_allocation pool_already_allocated : EidAllocationStatus

-- The discriminants: `self as u8`.
abbrev pub eid_allocation_status_as_u8 : EidAllocationStatus → ℕ
eid_allocation_status_as_u8 no_pool_support = 0x00
eid_allocation_status_as_u8 requires_pool_allocation = 0x01
eid_allocation_status_as_u8 pool_already_allocated = 0x02

abbrev eid_allocation_status_variants : List EidAllocationStatus
eid_allocation_status_variants =
    no_pool_support ∷ requires_pool_allocation ∷ pool_already_allocated ∷ []

pub eid_allocation_status_known :
    (e : EidAllocationStatus)
    → find_variant eid_allocation_status_as_u8 eid_allocation_status_variants
        (eid_allocation_status_as_u8 e)
      ≡ some e
eid_allocation_status_known no_pool_support = refl
eid_allocation_status_known _ = refl

abbrev pub eid_allocation_status_repr : ReprU8 EidAllocationStatus
eid_allocation_status_repr = record {
  as_u8 = eid_allocation_status_as_u8;
  variants = eid_allocation_status_variants;
  default_variant = no_pool_support;
  known = eid_allocation_status_known;
}

-- `EidAllocationStatus::from(u8)`.
abbrev pub eid_allocation_status_from : ⦃c : Crates⦄ → ℕ → EidAllocationStatus
eid_allocation_status_from ⦃c⦄ n = c.from_u8 EidAllocationStatus eid_allocation_status_repr n
