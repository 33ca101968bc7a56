-- ===== src/Models/Error.antt =====
-- crates/core/src/error.rs: `GatewayError` with the payloads that the modelled code reads. Its
-- JSON details, wrapped source errors and reset times are left out: nothing modelled looks at them.
use trading_gateway.Base.{refl, inr, inl, ◌⊎◌, ◌≡◌, ℕ, String, ◌⧺◌, Bool, true, false, ◌||◌, Option}
use trading_gateway.Models.Text.{to_lowercase, contains}

pub data GatewayError : Type 0 where
  invalid_request : (message : String) → (field : Option String) → GatewayError
  invalid_value : (field message : String) → (provided : Option String) → GatewayError
  validation_error : (errors : String) → GatewayError
  unauthorized : (reason code : String) → GatewayError
  order_not_found : (id : String) → GatewayError
  position_not_found : (id : String) → GatewayError
  symbol_not_found : (symbol : String) → GatewayError
  oco_group_not_found : (id : String) → GatewayError
  order_not_modifiable : (order_id reason : String) → GatewayError
  reset_cooldown : (message : String) → GatewayError
  order_rejected : (reason : String) → (reject_code : Option String) → GatewayError
  rate_limited : (retry_after_seconds : Option ℕ) → GatewayError
  internal : (message : String) → GatewayError
  provider_error : (message : String) → (provider : Option String) → GatewayError
  shutting_down : GatewayError
  provider_unavailable : (message : String) → GatewayError
  unsupported_operation : (operation provider : String) → GatewayError

-- `Result<T, GatewayError>`
pub data GatewayResult (A : Type 0) : Type 0 where
  ok : A → GatewayResult A
  err : GatewayError → GatewayResult A

-- `to_string`, from the `#[error(…)]` attributes.
unfoldable pub display : GatewayError → String
display (invalid_request message field) = "Invalid request: " ⧺ message
display (invalid_value field message provided) = "Invalid value for " ⧺ (field ⧺ (": " ⧺ message))
display (validation_error errors) = "Validation failed: " ⧺ errors
display (unauthorized reason code) = "Unauthorized: " ⧺ reason
display (order_not_found id) = "Order not found: " ⧺ id
display (position_not_found id) = "Position not found: " ⧺ id
display (symbol_not_found symbol) = "Symbol not found: " ⧺ symbol
display (oco_group_not_found id) = "OCO group not found: " ⧺ id
display (order_not_modifiable order_id reason) = "Order cannot be modified: " ⧺ reason
display (reset_cooldown message) = message
display (order_rejected reason reject_code) = "Order rejected: " ⧺ reason
display (rate_limited retry_after_seconds) = "Rate limit exceeded"
display (internal message) = "Internal error: " ⧺ message
display (provider_error message provider) = "Provider error: " ⧺ message
display shutting_down = "Gateway is shutting down"
display (provider_unavailable message) = "Provider unavailable: " ⧺ message
display (unsupported_operation operation provider) = operation ⧺ (" not supported on " ⧺ provider)

-- `GatewayError::is_wash_trade_error`
unfoldable pub is_wash_trade_error : GatewayError → Bool
is_wash_trade_error (order_rejected reason reject_code) =
    let reason_lower = to_lowercase reason in
    contains reason_lower "self-trade" || contains reason_lower "wash"
is_wash_trade_error _ = false

-- `GatewayError::is_retryable`
unfoldable pub is_retryable : GatewayError → Bool
unfolding is_wash_trade_error
is_retryable (rate_limited s) = true
is_retryable (provider_unavailable m) = true
is_retryable (provider_error m p) = true
is_retryable e = is_wash_trade_error e

-- crates/core/src/circuit_breaker.rs: `is_outage_error`
unfoldable pub is_outage_error : GatewayError → Bool
is_outage_error (provider_unavailable m) = true
is_outage_error (provider_error m p) = true
is_outage_error _ = false

pub Result-cases :
    {A : Type 0} (r : GatewayResult A) → ((a : A) × (r ≡ ok a)) ⊎ ((e : GatewayError) × (r ≡ err e))
Result-cases (ok a) = inl (a, refl)
Result-cases (err e) = inr (e, refl)
