-- ===== src/Endpoint/BusOwner/Discovery.antt =====
-- examples/basic_bus_owner_loop.rs: `run_bus_owner_loop`, round by round.

use mctp_emu.Prelude.{ℕ, ◌-◌, List, [], ◌∷◌, false, ◌&&◌, not, ltb, ◌==◌, if◌then◌else◌}
use mctp_emu.Crates.{Crates}
use mctp_emu.Base.Errors.{ok, err, other}
use mctp_emu.Control.Status.{is_success}
use mctp_emu.Control.SetEid
use mctp_emu.Control.SetEid.Enums.{no_pool_support}
use mctp_emu.Control.GetEid
use mctp_emu.Control.GetEid.Enums.{eid_type_from, endpoint_type_from}
use mctp_emu.Control.AllocateEids
use mctp_emu.Endpoint.Context.{MctpEndpointContext, Outcome, returns, panics}
use mctp_emu.Endpoint.BusOwner.{
  EndpointContext, Owner, Reply, Step, pure, lift, ◌>>=◌, ◌>>◌, u8_add, is_dynamic, is_bridge,
  requires_pool, is_accepted,
}
use mctp_emu.Endpoint.BusOwner.Requests.{
  send_get_eid_request, send_set_eid_request, send_allocate_eids_request,
}

module _ ⦃c : Crates⦄ where
  -- What a response to Get Endpoint ID says of the endpoint.
  abbrev pub discovered : GetEid.Response → EndpointContext
  discovered resp = record {
    eid = resp.eid;
    endpoint_type = endpoint_type_from (GetEid.endpoint_type resp);
    eid_type = eid_type_from (GetEid.eid_type resp);
    eid_allocation_status = no_pool_support;
    min_dynamic_eid = 0;
    max_dynamic_eid = 0;
    dynamic_eid_pool_size = 0;
  }

abbrev pub or_panic : {A : Type 0} → Outcome A → Outcome A
or_panic (returns (ok a)) = returns (ok a)
or_panic _ = panics

module _ {B : Type 0} where
  -- `.unwrap()`.
  unfoldable pub unwrap : {A : Type 0} → Step B A → Step B A
  unwrap m s = let (s', o) = m s in (s', or_panic o)

  -- `let eid = next_eid`.
  abbrev pub next : Step B ℕ
  next s = (s, returns (ok s.next_eid))

  -- `next_eid += n`, which panics on an overflow.
  unfoldable pub advance : ℕ → Step B (Unit {0})
  advance n = do
    eid ← next
    eid' ← lift (u8_add eid n)
    (λ s. (record s { next_eid = eid' }, returns (ok tt)))

  -- The pool behind the assigned EID, for a bridge that asks for one.
  unfoldable pub reserve : EndpointContext → (pool_size : ℕ) → Step B EndpointContext
  reserve endpoint pool_size = do
    min ← next
    end ← lift (u8_add min pool_size)
    advance pool_size
    pure (record endpoint {
      min_dynamic_eid = min;
      max_dynamic_eid = end - 1;
      dynamic_eid_pool_size = pool_size;
    })

module _ ⦃c : Crates⦄ {B : Type 0} (bus : B → List ℕ → B × Reply) where
  -- A confirmed Set Endpoint ID: an error where the EID was rejected, and a pool where one is asked for.
  unfoldable pub confirm : EndpointContext → SetEid.Response → Step B EndpointContext
  confirm endpoint resp =
      if not (SetEid.eid_assignment_status resp == 0)
      then lift (returns (err other))
      else if is_bridge endpoint.endpoint_type
          && (requires_pool endpoint.eid_allocation_status && ltb 0 resp.eid_pool_size)
      then reserve endpoint resp.eid_pool_size
      else pure endpoint

  -- The EID, and perhaps a pool, of a dynamic endpoint.
  unfoldable pub assign : EndpointContext → Step B EndpointContext
  assign endpoint = do
    eid ← next
    advance 1
    resp ← send_set_eid_request bus eid
    lift (returns (is_success resp.completion_code))
    confirm (record endpoint { eid_allocation_status = SetEid.eid_allocation_status resp }) resp

  -- The pool is announced to the endpoint.
  unfoldable pub allocate : EndpointContext → Step B (Unit {0})
  allocate endpoint =
      let announce = do
        resp ←
            send_allocate_eids_request bus endpoint.min_dynamic_eid endpoint.dynamic_eid_pool_size
        lift (returns (is_success resp.completion_code))
        lift (
            returns
              (if is_accepted (AllocateEids.allocation_status resp) then ok tt else err other))
      in if not (endpoint.min_dynamic_eid == endpoint.max_dynamic_eid) then announce else pure tt

  -- The branch of a round that discovers an endpoint.
  unfoldable pub discover : Step B EndpointContext
  discover = do
    resp ← send_get_eid_request bus 0
    lift (returns (is_success resp.completion_code))
    let found = discovered resp
    endpoint ← (if is_dynamic found.eid_type then assign found else pure found)
    allocate endpoint
    pure endpoint

  -- The other branch, after its sleep.
  unfoldable pub ping : ℕ → Step B (Unit {0})
  ping ping_eid =
      let greet = do
        resp ← unwrap (send_get_eid_request bus ping_eid)
        lift (or_panic (returns (is_success resp.completion_code)))
      in if not (ping_eid == 0) then greet else pure tt

  -- One round of the loop; `perform_discovery.swap(false)` takes the branch.
  unfoldable pub round : (ping_eid : ℕ) → Step B (Unit {0})
  round ping_eid s =
      let s' = record s { ctx = record s.ctx { perform_discovery = false } } in
      if s.ctx.perform_discovery then (discover >>= λ endpoint. pure tt) s' else ping ping_eid s'

  -- `run_bus_owner_loop` for as many rounds as the list has, each preceded by what other tasks do to the
  -- context.
  unfoldable pub rounds :
      (ping_eid : ℕ) → List (MctpEndpointContext → MctpEndpointContext) → Step B (Unit {0})
  rounds ping_eid [] = pure tt
  rounds ping_eid (others ∷ rest) =
      λ s. (round ping_eid >>= λ _. rounds ping_eid rest) (record s { ctx = others s.ctx })

-- The start of `run_bus_owner_loop`.
abbrev pub start : {B : Type 0} → MctpEndpointContext → B → Owner B
start ctx b = record { ctx = ctx; next_eid = ctx.min_eid_in_pool; bus = b }
