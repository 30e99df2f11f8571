-- ===== src/Network/Types/Routes.antt =====
-- Which route a lookup finds.
use mctp_emu.Prelude.{
  ℕ, ◌≤◌, ◌≡◌, ◌↔◌, refl, ap, List, [], ◌∷◌, ◌++◌, none, some, true, false, All, arith, ◌⊎◌, inl,
  inr, Bool-cases,
}
use mctp_emu.Network.Types.{Route, matches, route_lookup}

-- The route leads to the network, and the EID is in its range.
pub record Leads (r : Route) (dnet daddr : ℕ) : Type 0 where
  pub same_net : dnet ≡ r.net
  pub above : r.min_eid ≤ daddr
  pub below : daddr ≤ r.max_eid

pub matches-Leads :
    (r : Route) (dnet daddr : ℕ) → (matches r dnet daddr ≡ true) ↔ Leads r dnet daddr
unfolding matches
matches-Leads r dnet daddr = (
  λ h. record { same_net = ground arith; above = ground arith; below = ground arith },
  λ l. ground arith,
)

-- The routes, cut at the first that leads to the address.
pub record FirstRoute (routes : List Route) (dnet daddr : ℕ) (r : Route) : Type 0 where
  pub earlier : List Route
  pub later : List Route
  pub shape : routes ≡ earlier ++ (r ∷ later)
  pub passed : All (λ q. ¬ Leads q dnet daddr) earlier
  pub leads : Leads r dnet daddr

not-Leads : (r : Route) (dnet daddr : ℕ) → matches r dnet daddr ≡ false → ¬ Leads r dnet daddr
not-Leads r dnet daddr e l = cc ((matches-Leads r dnet daddr).1 l)

-- A lookup finds the first route, in the order of the table, whose network is the destination's and
-- whose range has its EID; it finds none exactly where no route leads there.
pub route_lookup_lem :
    (routes : List Route) (dnet daddr : ℕ)
    → (All (λ q. ¬ Leads q dnet daddr) routes × (route_lookup routes dnet daddr ≡ none))
      ⊎ ((r : Route) × (route_lookup routes dnet daddr ≡ some r) × FirstRoute routes dnet daddr r)
unfolding route_lookup
route_lookup_lem [] dnet daddr = inl (tt, refl)
route_lookup_lem (x ∷ routes) dnet daddr =
    go (Bool-cases (matches x dnet daddr)) (route_lookup_lem routes dnet daddr)
  where
    go :
        ((matches x dnet daddr ≡ true) ⊎ (matches x dnet daddr ≡ false))
        → ((All (λ q. ¬ Leads q dnet daddr) routes × (route_lookup routes dnet daddr ≡ none))
            ⊎ ((r : Route) × (route_lookup routes dnet daddr ≡ some r)
                × FirstRoute routes dnet daddr r))
        → (All (λ q. ¬ Leads q dnet daddr) (x ∷ routes)
            × (route_lookup (x ∷ routes) dnet daddr ≡ none))
          ⊎ ((r : Route) × (route_lookup (x ∷ routes) dnet daddr ≡ some r)
              × FirstRoute (x ∷ routes) dnet daddr r)
    go (inl e) _ = inr (
      x,
      rw e,
      record {
        earlier = [];
        later = routes;
        shape = refl;
        passed = tt;
        leads = (matches-Leads x dnet daddr).0 e;
      },
    )
    go (inr e) (inl (p, q)) = inl ((not-Leads x dnet daddr e, p), rw e q)
    go (inr e) (inr (r, q, s)) = inr (
      r,
      rw e q,
      record {
        earlier = x ∷ s.earlier;
        later = s.later;
        shape = ap (◌∷◌ x) s.shape;
        passed = (not-Leads x dnet daddr e, s.passed);
        leads = s.leads;
      },
    )
