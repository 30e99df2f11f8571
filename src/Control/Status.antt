-- ===== src/Control/Status.antt =====
-- mctp-emu-derive/src/lib.rs: `AddControlMsgResponse`, the status of a response by its completion code.
use mctp_emu.Prelude.{
  ℕ, ◌≡◌, ◌↔◌, refl, Bool-cases, inl, inr, ap, ◌∙◌, sym, Bool, true, false, if◌then◌else◌,
}
use mctp_emu.Crates.{Crates}
use mctp_emu.Base.Errors.{Result, ok, err, other}
use mctp_emu.Control.CompletionCode.{
  CompletionCode, success, completion_code_from, completion_code_repr, completion_code_as_u8,
}
use mctp_emu.Control.EnumWire.{from_u8-as_u8, from_u8_cases}

-- `== CompletionCode::Success`.
abbrev pub is_success_code : CompletionCode → Bool
is_success_code success = true
is_success_code _ = false

module _ ⦃c : Crates⦄ where
  -- `completion_code()`, of the response's raw byte.
  unfoldable pub completion_code : ℕ → CompletionCode
  completion_code raw = completion_code_from raw

  -- `is_success()`, of the response's raw byte.
  unfoldable pub is_success : ℕ → Result (Unit {0})
  unfolding completion_code
  is_success raw = if is_success_code (completion_code raw) then ok tt else err other

  success-code : (code : CompletionCode) → is_success_code code ≡ true → code ≡ success
  success-code success h = refl
  success-code CompletionCode.error h = cc
  success-code _ h = cc

  zero_of_success : (raw : ℕ) → completion_code_from raw ≡ success → raw ≡ 0
  zero_of_success raw h = elim (from_u8_cases completion_code_repr raw) [
    | inl e ↦ sym e ∙ ap completion_code_as_u8 h
    | inr (_, d) ↦ absurd (cc (h, d))
  ]

  -- A response is successful exactly when its completion code is the byte 0; every other byte, also one
  -- that is no listed code, is reported as an error.
  pub is_success_iff : (raw : ℕ) → (is_success raw ≡ ok tt) ↔ (raw ≡ 0)
  unfolding is_success completion_code
  is_success_iff raw = (
    λ h. elim (Bool-cases (is_success_code (completion_code_from raw))) [
      | inl e ↦ zero_of_success raw (success-code (completion_code_from raw) e)
      | inr e ↦ absurd (cc (rw e at h))
    ],
    λ e. rw (e, from_u8-as_u8 completion_code_repr success),
  )
