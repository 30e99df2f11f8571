-- ===== src/Base/Wire.antt =====
-- mctp-emu-derive/src/lib.rs: what `FromBinary` and `FromControlPayload` derive for a packed struct.
-- A `Wire` is serde's derived traversal of a type over `bincode`; `u8`, `pair` and `struct` build the
-- traversal of a struct from those of its fields, in the order of their declaration.
pub mod Conversion
use mctp_emu.Prelude.{
  ℕ, ◌+◌, ◌≤◌, ◌≡◌, refl, List, [], ◌∷◌, ◌++◌, Option, none, some, arith, length, length-append,
  append_assoc, drop, drop-drop, length-drop, ltb, if◌then◌else◌, ◌>>=◌, sym, ap,
}
use mctp_emu.Crates.{Crates}
use mctp_emu.Base.Errors.{Result, ok, err, invalid_payload_size, or_other}

-- A deserialization reads `size_of` bytes and no more, whatever follows them.
pub record Wire (T : Type 0) : Type 0 where
  pub size_of : ℕ
  pub serialize : T → List ℕ
  pub deserialize : List ℕ → Option (T × List ℕ)
  pub length-serialize : (t : T) → length (serialize t) ≡ size_of
  pub deserialize-serialize :
      (t : T) (rest : List ℕ) → deserialize (serialize t ++ rest) ≡ some (t, rest)
  pub deserialize_total :
      (bytes : List ℕ)
      → size_of ≤ length bytes
      → (t : T) × (deserialize bytes ≡ some (t, drop size_of bytes))

module _ ⦃c : Crates⦄ where
  open c use {write_u8, read_u8, write_u8_lem, read_u8_cons}

  pub u8_total :
      (bytes : List ℕ) → 1 ≤ length bytes → (b : ℕ) × (read_u8 bytes ≡ some (b, drop 1 bytes))
  u8_total [] h = absurd (omega arith)
  u8_total (b ∷ bs) h = (b, read_u8_cons b bs)

  abbrev pub u8 : Wire ℕ
  u8 = record {
    size_of = 1;
    serialize = write_u8;
    deserialize = read_u8;
    length-serialize = λ b. rw write_u8_lem;
    deserialize-serialize = λ b rest. rw write_u8_lem (read_u8_cons b rest);
    deserialize_total = u8_total;
  }

module _ {A B : Type 0} (wa : Wire A) (wb : Wire B) where
  abbrev pub pair_serialize : A × B → List ℕ
  pair_serialize p = wa.serialize p.0 ++ wb.serialize p.1

  abbrev pub pair_deserialize : List ℕ → Option ((A × B) × List ℕ)
  pair_deserialize bytes = do
    (a, bytes₁) ← wa.deserialize bytes
    (b, rest) ← wb.deserialize bytes₁
    some ((a, b), rest)

  pub length-pair_serialize : (p : A × B) → length (pair_serialize p) ≡ wa.size_of + wb.size_of
  length-pair_serialize p =
      rw (length-append (wa.serialize p.0), wa.length-serialize, wb.length-serialize)

  pub pair_deserialize-serialize :
      (p : A × B) (rest : List ℕ) → pair_deserialize (pair_serialize p ++ rest) ≡ some (p, rest)
  pair_deserialize-serialize p rest =
      rw (append_assoc (wa.serialize p.0), wa.deserialize-serialize, wb.deserialize-serialize)

  pub pair_deserialize_total :
      (bytes : List ℕ)
      → wa.size_of + wb.size_of ≤ length bytes
      → (p : A × B) × (pair_deserialize bytes ≡ some (p, drop (wa.size_of + wb.size_of) bytes))
  pair_deserialize_total bytes h =
      let (a, ea) = wa.deserialize_total bytes (omega arith) in
      let (b, eb) =
        wb.deserialize_total (drop wa.size_of bytes)
          (omega (arith, length-drop wa.size_of bytes)) in
      ((a, b), rw (ea, eb, drop-drop wa.size_of wb.size_of bytes))

  abbrev pub pair : Wire (A × B)
  pair = record {
    size_of = wa.size_of + wb.size_of;
    serialize = pair_serialize;
    deserialize = pair_deserialize;
    length-serialize = length-pair_serialize;
    deserialize-serialize = pair_deserialize-serialize;
    deserialize_total = pair_deserialize_total;
  }

abbrev pub map_value : {A B : Type 0} → (A → B) → Option (A × List ℕ) → Option (B × List ℕ)
map_value f none = none
map_value f (some (a, rest)) = some (f a, rest)

module _ {A T : Type 0} (w : Wire A) (build : A → T) (fields : T → A)
    (η : (t : T) → build (fields t) ≡ t) where
  pub struct_total :
      (bytes : List ℕ)
      → w.size_of ≤ length bytes
      → (t : T) × (map_value build (w.deserialize bytes) ≡ some (t, drop w.size_of bytes))
  struct_total bytes h = let (a, e) = w.deserialize_total bytes h in (build a, rw e)

  -- A struct over the traversal of the tuple of its fields.
  abbrev pub struct : Wire T
  struct = record {
    size_of = w.size_of;
    serialize = λ t. w.serialize (fields t);
    deserialize = λ bytes. map_value build (w.deserialize bytes);
    length-serialize = λ t. w.length-serialize (fields t);
    deserialize-serialize = λ t rest. rw (w.deserialize-serialize, η);
    deserialize_total = struct_total;
  }

-- The struct that was read; `bincode::deserialize` lets bytes trail.
abbrev pub value_of : {T : Type 0} → Option (T × List ℕ) → Option T
value_of none = none
value_of (some (t, rest)) = some t

module _ {T : Type 0} (w : Wire T) where
  -- `impl From<T> for Bytes`.
  unfoldable pub to_bytes : T → List ℕ
  to_bytes t = w.serialize t

  -- `impl TryFrom<Bytes> for T`.
  unfoldable pub try_from : List ℕ → Result T
  try_from bytes =
      if ltb (length bytes) w.size_of
      then err (invalid_payload_size w.size_of (length bytes))
      else or_other (value_of (w.deserialize bytes))

  -- `impl From<T> for Vec<u8>`.
  unfoldable pub to_vec : T → List ℕ
  to_vec t = w.serialize t

  -- `impl TryFrom<Vec<u8>> for T`.
  unfoldable pub try_from_vec : List ℕ → Result T
  try_from_vec vec =
      if ltb (length vec) w.size_of
      then err (invalid_payload_size w.size_of (length vec))
      else or_other (value_of (w.deserialize vec))
