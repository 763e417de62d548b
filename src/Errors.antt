-- ===== src/Errors.antt =====
-- The program's error values: internal/providers/provider.go's ProviderError, the context's two
-- errors, and any other, which is known by its text and by what the two interfaces of
-- internal/resilience/retry.go find in it.
use resillm.Common.{String, Bool, Option, none, some, ◌||◌, ℤ, pos, eqb_ℤ}

pub record ProviderError : Type 0 where
  pub code : ℤ
  pub body : String
  pub provider : String

-- `(*ProviderError).IsRetryable`.
unfoldable pub provider_is_retryable : ProviderError → Bool
provider_is_retryable e =
    eqb_ℤ e.code (pos 429)
    || (eqb_ℤ e.code (pos 500)
        || (eqb_ℤ e.code (pos 502) || (eqb_ℤ e.code (pos 503) || eqb_ℤ e.code (pos 504))))

pub data Error : Type 0 where
  provider_error : ProviderError → Error
  context_canceled deadline_exceeded : Error
  -- What `IsRetryable()` and `StatusCode()` return, where the error has them, and its text.
  other : Option Bool → Option ℤ → String → Error

-- `err.(RetryableError)`, with the method's answer.
unfoldable pub as_retryable_error : Error → Option Bool
unfolding provider_is_retryable
as_retryable_error (provider_error e) = some (provider_is_retryable e)
as_retryable_error context_canceled = none
as_retryable_error deadline_exceeded = none
as_retryable_error (other r s text) = r

-- `err.(ProviderError)` of retry.go, with its status code.
unfoldable pub as_provider_error : Error → Option ℤ
as_provider_error (provider_error e) = some e.code
as_provider_error context_canceled = none
as_provider_error deadline_exceeded = none
as_provider_error (other r s text) = s

-- The pair of a value and an error, of which a Go function returns one.
pub data Result {ℓ} (A : Type ℓ) : Type ℓ where
  ok : A → Result A
  err : Error → Result A
