-- ===== src/Network/Virtual/Runs.antt =====
-- What holds of a network with routes whatever is done with it.
use mctp_emu.Prelude.{ℕ, ◌^◌, ◌%◌, ◌≡◌, refl, [], ◌∷◌, length, length-append, arith}
use mctp_emu.Prelude.Int.{ℤ}
use mctp_emu.Emu.{MctpEmuError, MctpEmuResult, err}
use mctp_emu.Network.Types.{extended, route_lookup}
use mctp_emu.Network.Virtual.{
  VirtualNetwork, new, socket, bind, join_handles, add_physical_binding, sendto,
}

module _ {B J : Type 0} where
  pub data Step (net : VirtualNetwork B J) : VirtualNetwork B J → Type 0 where
    open_socket : Step net (socket net).0
    bind_socket :
        (sd : ℤ) (address msg_type tag : ℕ) → Step net (bind net sd address msg_type tag).0
    join : Step net (join_handles net).0
    add_binding :
        (bound : ℕ → B → MctpEmuResult J) (binding : B)
        → Step net (add_physical_binding bound net binding).0

  -- The networks that a new one can become.
  pub data Reach (handler : J) : VirtualNetwork B J → Type 0 where
    start : Reach handler (new handler)
    next : {net net' : VirtualNetwork B J} → Reach handler net → Step net net' → Reach handler net'

  -- No route, and the bindings counted.
  pub record Inv (net : VirtualNetwork B J) : Type 0 where
    pub no_routes : net.routes ≡ []
    pub counted : net.num_bindings ≡ length net.net_devs % 2 ^ 64

  Step-Inv : {net net' : VirtualNetwork B J} → Step net net' → Inv net → Inv net'
  unfolding socket bind join_handles add_physical_binding
  Step-Inv open_socket v = record { no_routes = v.no_routes; counted = v.counted }
  Step-Inv {net} (bind_socket sd address msg_type tag) v = record {
    no_routes = ground (arith, v.no_routes);
    counted = ground (arith, v.counted);
  }
  Step-Inv join v = record { no_routes = v.no_routes; counted = v.counted }
  Step-Inv {net} (add_binding bound binding) v = record {
    no_routes = ground (arith, v.no_routes);
    counted = ground (arith, v.counted, length-append net.net_devs (binding ∷ []));
  }

  pub Reach-Inv : {handler : J} {net : VirtualNetwork B J} → Reach handler net → Inv net
  Reach-Inv start = record { no_routes = refl; counted = refl }
  Reach-Inv (next r st) = Step-Inv st (Reach-Inv r)

  -- Nothing can be sent over a network with routes: no operation adds a route, so in every network that a
  -- new one can become a `sendto` to an extended address ends in an error.
  pub sendto-Reach :
      (handler : J) (net : VirtualNetwork B J) (address network binding_id phy_addr : ℕ)
      → Reach handler net
      → sendto net (extended address network binding_id phy_addr) ≡ err MctpEmuError.other
  unfolding sendto route_lookup
  sendto-Reach handler net address network binding_id phy_addr r = rw ((Reach-Inv r).no_routes) refl
