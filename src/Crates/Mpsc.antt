-- ===== src/Crates/Mpsc.antt =====
-- The crate tokio's bounded channel `mpsc`, as its documentation has it.
use mctp_emu.Prelude.{
  ℕ, ◌≤◌, ◌<◌, ◌≡◌, refl, ap, List, [], ◌∷◌, ◌++◌, Option, none, some, length, ltb, if◌then◌else◌,
  lt→ltb, le→ltb,
}

-- `contents` are the values sent and not yet received, the oldest first. `try_send` fails where the
-- channel is full, and `recv` has nothing to give where it is empty.
pub record Mpsc (capacity : ℕ) (A Q : Type 0) : Type 0 where
  pub channel : Q
  pub contents : Q → List A
  pub try_send : Q → A → Option Q
  pub recv : Q → Option (A × Q)
  pub contents-channel : contents channel ≡ []
  pub try_send-room :
      (q : Q) (a : A)
      → length (contents q) < capacity
      → (q' : Q) × (try_send q a ≡ some q') × (contents q' ≡ contents q ++ (a ∷ []))
  pub try_send-full : (q : Q) (a : A) → capacity ≤ length (contents q) → try_send q a ≡ none
  pub recv-empty : (q : Q) → contents q ≡ [] → recv q ≡ none
  pub recv-first :
      (q : Q) (a : A) (rest : List A)
      → contents q ≡ a ∷ rest
      → (q' : Q) × (recv q ≡ some (a, q')) × (contents q' ≡ rest)

-- A channel that is a list.
abbrev first : {A : Type 0} → List A → Option (A × List A)
first [] = none
first (a ∷ rest) = some (a, rest)

abbrev pub list_channel : (capacity : ℕ) (A : Type 0) → Mpsc capacity A (List A)
list_channel capacity A = record {
  channel = [];
  contents = λ q. q;
  try_send = λ q a. if ltb (length q) capacity then some (q ++ (a ∷ [])) else none;
  recv = first;
  contents-channel = refl;
  try_send-room = λ q a h. (q ++ (a ∷ []), rw (lt→ltb (length q) capacity h) refl, refl);
  try_send-full = λ q a h. rw (le→ltb (length q) capacity h) refl;
  recv-empty = λ q h. ap first h;
  recv-first = λ q a rest h. (rest, ap first h, refl);
}
