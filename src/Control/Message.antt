-- ===== src/Control/Message.antt =====
-- The structs of mctp-base-lib/src/control that stand in a control payload: each begins with the
-- control header (`hdr` is its first field), which the payload layer relies on.
use mctp_emu.Prelude.{ℕ, ◌≡◌, List, ◌++◌}
use mctp_emu.Crates.{Crates}
use mctp_emu.Base.Wire.{Wire}
use mctp_emu.Control.Header
use mctp_emu.Control.Header.{ControlMsgHeader}

module _ ⦃c : Crates⦄ where
  pub record Message (T : Type 0) : Type 0 where
    pub wire : Wire T
    pub hdr : T → ControlMsgHeader
    pub body : T → List ℕ
    pub serialize-hdr : (t : T) → wire.serialize t ≡ Header.wire.serialize (hdr t) ++ body t
