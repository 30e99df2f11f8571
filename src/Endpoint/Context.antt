-- ===== src/Endpoint/Context.antt =====
-- examples/basic_bus_owner_loop.rs: the state of an endpoint. An atomic is its value.
use mctp_emu.Prelude.{ℕ, List, Bool}
use mctp_emu.Base.Errors.{Result}

pub record MctpEndpointContext : Type 0 where
  pub smbus_addr : ℕ
  pub msg_types : List ℕ
  pub topmost_bus_owner : Bool
  pub assigned_eid : ℕ
  pub perform_discovery : Bool
  pub min_eid_in_pool : ℕ
  pub eid_pool_size : ℕ
  pub next_msg_tag : ℕ
  pub next_instance_id : ℕ

-- What a call comes to: a result, or a panic (`todo!()`, an `unwrap` that fails, an overflow).
pub data Outcome {ℓ} (A : Type ℓ) : Type ℓ where
  returns : Result A → Outcome A
  panics : Outcome A
