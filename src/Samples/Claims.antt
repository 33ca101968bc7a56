-- ===== src/Samples/Claims.antt =====
-- Validation of orders, registration of a validated order, and claims of transaction ids.
use trading_gateway.Base.{
  ◌≡◌, none, some, true, false, List, [], ◌∷◌, String, refl, string_eq, nat_eq,
}
use trading_gateway.Models.Order.{OrderRequest}
use trading_gateway.Base.Map.{lookup}
use trading_gateway.Trailing.Types.{generate_placeholder_id}
use trading_gateway.Models.Error.{ok}
use trading_gateway.Samples.Numbers.{Whole, whole}
use trading_gateway.Trailing.Handler.{new_handler}
use trading_gateway.Samples.Trails.{trailing, fresh, describe_type}
use trading_gateway.Samples.Entries.{entry_order, at_time}
use trading_gateway.Models.Validation.{is_ok, validate_semantics}
use trading_gateway.Models.Validation.Meaning.{well_formed, validate_semantics-ok_iff}
use trading_gateway.Trailing.Admission.{register-validated, entry_of}
use trading_gateway.Dedupe.{with_capacity}
use trading_gateway.Dedupe.Window.{answers, expected, try_claim_all-refines}
use trading_gateway.Trailing.Handler.{new_handler, register}

validate_semantics-ok_iff_example : is_ok (validate_semantics entry_order) ≡ well_formed entry_order
validate_semantics-ok_iff_example = validate_semantics-ok_iff entry_order

-- A limit order without a price is refused.
no_price : is_ok (validate_semantics record entry_order { limit_price = none }) ≡ false
no_price = validate_semantics-ok_iff record entry_order { limit_price = none }

-- A trailing stop order without a limit price.
abbrev plain : OrderRequest Whole
plain = record trailing { limit_price = none }

plain_valid : is_ok (validate_semantics plain) ≡ true
plain_valid = validate_semantics-ok_iff plain

register-validated_example :
    let (result, h') = register describe_type (at_time 1) "p1" plain fresh in
    let id = generate_placeholder_id "p1" in
    (result ≡ ok id)
    × ((distance : Whole) × (plain.trailing_distance ≡ some distance)
        × (lookup id h'.entries_by_placeholder
            ≡ some (entry_of (at_time 1) "p1" plain distance fresh)))
unfolding new_handler
register-validated_example =
    register-validated describe_type (at_time 1) "p1" plain fresh plain_valid refl refl

-- A fill and its cancel, a redelivery, two more ids, and the first again after it was evicted.
abbrev claims : List (List String)
claims = ("1" ∷ "2" ∷ []) ∷ ("2" ∷ []) ∷ ("3" ∷ []) ∷ ("4" ∷ []) ∷ ("1" ∷ []) ∷ []

try_claim_all-refines_example : answers claims (with_capacity 3) ≡ expected 3 claims []
try_claim_all-refines_example = try_claim_all-refines 3 claims

evicted_again : answers claims (with_capacity 3) ≡ true ∷ false ∷ true ∷ true ∷ true ∷ []
evicted_again = try_claim_all-refines 3 claims
