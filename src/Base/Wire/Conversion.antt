-- ===== src/Base/Wire/Conversion.antt =====
-- The derived conversions at every struct: round trip, the size check, and what is read past it.
use mctp_emu.Prelude.{ℕ, ◌≤◌, ◌<◌, ◌≡◌, List, ◌++◌, arith, length, length-append, le→ltb, lt→ltb}
use mctp_emu.Base.Errors.{ok, err, invalid_payload_size}
use mctp_emu.Base.Wire.{Wire, to_bytes, try_from}

module _ {T : Type 0} (w : Wire T) where
  -- What was written is read back, whatever bytes trail.
  pub try_from-to_bytes : (t : T) (rest : List ℕ) → try_from w (to_bytes w t ++ rest) ≡ ok t
  unfolding try_from to_bytes
  try_from-to_bytes t rest = rw (
    le→ltb (length (w.serialize t ++ rest)) w.size_of
        (omega (arith, length-append (w.serialize t) rest, w.length-serialize t)),
    w.deserialize-serialize t rest,
  )

  pub try_from_short :
      (bytes : List ℕ)
      → length bytes < w.size_of
      → try_from w bytes ≡ err (invalid_payload_size w.size_of (length bytes))
  unfolding try_from
  try_from_short bytes h = rw (lt→ltb (length bytes) w.size_of h)

  pub try_from_long :
      (bytes : List ℕ) → w.size_of ≤ length bytes → (t : T) × (try_from w bytes ≡ ok t)
  unfolding try_from
  try_from_long bytes h =
      let (t, e) = w.deserialize_total bytes h in (t, rw (le→ltb (length bytes) w.size_of h, e))
