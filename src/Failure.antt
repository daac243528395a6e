-- ===== src/Failure.antt =====
-- Go's `error` values as the plugin makes them: the sentinel that `errors.Is` can find in the chain
-- of wrapped errors, beside the message. A nil error is the `ok` case of `Result`.
use consent_plugin.Common.{String, ◌⊎◌, inl, inr, ◌≡◌, refl, Bool, true, false}
use consent_plugin.Common.Text.{◌<>◌}

-- `unauthorized`, `no_credentials` and `not_registered` are the sentinels of client.go; `canceled`
-- is context.Canceled, which net/http wraps when the request's context was cancelled.
pub data Cause : Type 0 where
  other unauthorized no_credentials not_registered canceled : Cause

pub record Failure : Type 0 where
  pub cause : Cause
  pub text : String

-- errors.Is(err, errParticipantUnauthorized), and so on
abbrev pub is_unauthorized : Failure → Bool
is_unauthorized f = elim f.cause [ unauthorized ↦ true | _ ↦ false ]

abbrev pub is_canceled : Failure → Bool
is_canceled f = elim f.cause [ canceled ↦ true | _ ↦ false ]

-- fmt.Errorf("...: %w", err)
abbrev pub wrap : String → Failure → Failure
wrap prefix f = record f { text = prefix <> f.text }

abbrev pub plain : String → Failure
plain text = record { cause = other; text = text }

pub data Result {ℓ} (A : Type ℓ) : Type ℓ where
  ok : A → Result A
  err : Failure → Result A

pub Result-cases :
    {A : Type 0} (r : Result A) → ((f : Failure) × (r ≡ err f)) ⊎ ((a : A) × (r ≡ ok a))
Result-cases (err f) = inl (f, refl)
Result-cases (ok a) = inr (a, refl)
