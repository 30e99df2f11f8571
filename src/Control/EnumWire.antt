-- ===== src/Control/EnumWire.antt =====
-- mctp-emu-derive/src/lib.rs: `SerializeU8Enum` and `DeserializeU8Enum`, which write an enum as the
-- `u8` that it is represented by and read one by `num_enum`'s `from`.
use mctp_emu.Prelude.{
  ℕ, ◌≡◌, ◌≢◌, refl, ap, ◌∙◌, List, [], ◌∷◌, Option, none, some, inl, inr, ◌⊎◌, arith,
}
use mctp_emu.Crates.{Crates, ReprU8, find_variant, get_or}
use mctp_emu.Base.Wire.{Wire, u8, struct}

module _ {E : Type 0} (as_u8 : E → ℕ) where
  find_variant-some : (es : List E) (n : ℕ) (e : E) → find_variant as_u8 es n ≡ some e → as_u8 e ≡ n
  find_variant-some [] n e h = absurd (cc)
  find_variant-some (x ∷ es) n e h = ground (arith, find_variant-some es n e)

module _ ⦃c : Crates⦄ {E : Type 0} (r : ReprU8 E) where
  open c use {from_u8, from_u8_lem}

  pub from_u8-as_u8 : (e : E) → from_u8 E r (r.as_u8 e) ≡ e
  from_u8-as_u8 e = rw (from_u8_lem, r.known)

  -- A byte is read as the variant with that discriminant, and any other byte as the default.
  pub from_u8_cases :
      (n : ℕ)
      → (r.as_u8 (from_u8 E r n) ≡ n)
        ⊎ (((e : E) → r.as_u8 e ≢ n) × (from_u8 E r n ≡ r.default_variant))
  from_u8_cases n = go (find_variant r.as_u8 r.variants n) refl
    where
      go :
          (o : Option E)
          → find_variant r.as_u8 r.variants n ≡ o
          → (r.as_u8 (from_u8 E r n) ≡ n)
            ⊎ (((e : E) → r.as_u8 e ≢ n) × (from_u8 E r n ≡ r.default_variant))
      go (some e) h = inl (
          ap r.as_u8 (from_u8_lem E r n ∙ ap (λ o. get_or o r.default_variant) h)
          ∙ find_variant-some r.as_u8 r.variants n e h)
      go none h = inr (
        λ e p. absurd (cc (r.known e, ap (find_variant r.as_u8 r.variants) p, h)),
        from_u8_lem E r n ∙ ap (λ o. get_or o r.default_variant) h,
      )

  abbrev pub enum_wire : Wire E
  enum_wire = struct u8 (from_u8 E r) r.as_u8 from_u8-as_u8
