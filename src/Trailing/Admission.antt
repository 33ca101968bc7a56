-- ===== src/Trailing/Admission.antt =====
-- Which requests register a trailing stop (`register` of
-- crates/core/src/trailing_stop/handler.rs), and how many entries there are.
use trading_gateway.Base.{
  subst, sym, ap, String, ◌⧺◌, Bool, true, false, ◌&&◌, Option, none, some, length, ltb, leb, ◌==◌,
  if◌then◌else◌, option_eq, string_eq, nat_eq, ◌≡◌, ◌⊎◌, inl, inr, refl, arith, Bool-cases,
  Option-cases,
}
use trading_gateway.Base.Map.{lookup, lookup-insert, lookup-insert_self}
use trading_gateway.Base.Decimal.{Decimal, zero_d, lt_dec}
use trading_gateway.Models.Error.{GatewayError, ok, err, internal, invalid_request}
use trading_gateway.Models.{OrderType, TrailingType, absolute, percent}
use trading_gateway.Trailing.Types.{TrailingEntry, pending, generate_placeholder_id, new_entry}
use trading_gateway.Trailing.Stops.{valid_distance}
use trading_gateway.Trailing.Handler.{
  Handler, is_trailing_stop, register_distance, register_checked, register, insert_entry,
}
use trading_gateway.Models.Order.{OrderRequest}
use trading_gateway.Exit.Types.{Now}
use trading_gateway.Exit.Placement.{or_default}
use trading_gateway.Models.Text.{show_nat}
use trading_gateway.Models.Validation.{is_ok, validate_semantics}
use trading_gateway.Models.Validation.Meaning.{validate_semantics-ok_iff}
use trading_gateway.Exit.Placement.{or_default}
use trading_gateway.Models.Text.{show_nat}
use trading_gateway.Exit.Placement.{or_default}

module _ {D : Type 0} ⦃dec : Decimal D⦄ where
  abbrev pub distance_fits : TrailingType → Option D → Bool
  distance_fits trailing_type none = false
  distance_fits trailing_type (some distance) = valid_distance trailing_type distance

  -- The specification: a trailing stop order with a distance that fits its type, while there is room.
  abbrev pub acceptable : OrderRequest D → Handler D → Bool
  acceptable order h =
      is_trailing_stop order.order_type
      && (distance_fits (or_default percent order.trailing_type) order.trailing_distance
          && ltb (length h.entries_by_placeholder) h.config.max_pending_entries)

  abbrev pub entry_of : Now → String → OrderRequest D → D → Handler D → TrailingEntry D
  entry_of now primary_order_id order distance h =
      new_entry now primary_order_id order.symbol order.side order.quantity distance
        (or_default percent order.trailing_type) h.platform

  exhausted : Handler D → GatewayError
  exhausted h = internal (
      "Resource exhausted: trailing_stop_entries (limit: "
      ⧺ (show_nat h.config.max_pending_entries ⧺ ")"))

  room-outcome :
      (now : Now) (primary_order_id : String) (order : OrderRequest D) (distance : D)
      (trailing_type : TrailingType) (h : Handler D)
      → let result = register_checked now primary_order_id order distance trailing_type h in
        let e =
          new_entry now primary_order_id order.symbol order.side order.quantity distance
            trailing_type h.platform in
        let room = ltb (length h.entries_by_placeholder) h.config.max_pending_entries in
        ((room ≡ true) × (result ≡ (ok e.placeholder_id, insert_entry e h)))
        ⊎ ((room ≡ false) × ((e : GatewayError) × (result ≡ (err e, h))))
  unfolding register_checked exhausted
  room-outcome now primary_order_id order distance trailing_type h =
      let count = length h.entries_by_placeholder in
      let limit = h.config.max_pending_entries in
      elim (Bool-cases (ltb count limit)) [
        | inl room ↦
            let below : leb limit count ≡ false = ground arith in inl (room, rw (below) refl)
        | inr full ↦
            let reached : leb limit count ≡ true = ground arith in
            inr (full, (exhausted h, rw (reached) refl))
      ]

  distance-outcome :
      (now : Now) (primary_order_id : String) (order : OrderRequest D) (distance : D)
      (trailing_type : TrailingType) (h : Handler D)
      → let result = register_distance now primary_order_id order distance trailing_type h in
        let e =
          new_entry now primary_order_id order.symbol order.side order.quantity distance
            trailing_type h.platform in
        let room = ltb (length h.entries_by_placeholder) h.config.max_pending_entries in
        ((valid_distance trailing_type distance ≡ true)
          × (room ≡ true)
          × (result ≡ (ok e.placeholder_id, insert_entry e h)))
        ⊎ ((valid_distance trailing_type distance && room ≡ false)
            × ((e : GatewayError) × (result ≡ (err e, h))))
  unfolding register_distance
  distance-outcome now primary_order_id order distance absolute h =
      elim (Bool-cases (lt_dec zero_d distance)) [
        | inr low ↦ inr (
          rw (low) refl,
          (
            invalid_request ("trailing_distance must be positive, got " ⧺ dec.show distance) none,
            rw (low) refl,
          ),
        )
        | inl positive ↦ elim (room-outcome now primary_order_id order distance absolute h) [
          | inl (room, is) ↦ inl (positive, room, rw (positive) is)
          | inr (full, (e, is)) ↦ inr (rw (positive) full, (e, rw (positive) is))
        ]
      ]
  distance-outcome now primary_order_id order distance percent h =
      elim (Bool-cases (lt_dec zero_d distance)) [
        | inr low ↦ inr (
          rw (low) refl,
          (
            invalid_request ("trailing_distance must be positive, got " ⧺ dec.show distance) none,
            rw (low) refl,
          ),
        )
        | inl positive ↦ elim (Bool-cases (lt_dec distance dec.hundred_dec)) [
          | inr high ↦ inr (
            rw (positive, high) refl,
            (
              invalid_request
                  ("trailing_distance percentage must be less than 100, got " ⧺ dec.show distance)
                  none,
              rw (positive, high) refl,
            ),
          )
          | inl below ↦ elim (room-outcome now primary_order_id order distance percent h) [
            | inl (room, is) ↦ inl (rw (positive, below) refl, room, rw (positive, below) is)
            | inr (full, (e, is)) ↦ inr (rw (positive, below) full, (e, rw (positive, below) is))
          ]
        ]
      ]

  -- The handler `h'` has in addition to `h` a new pending entry for the order, found under its
  -- placeholder id and through the primary order.
  pub record IsRegistered (primary_order_id : String) (order : OrderRequest D) (distance : D)
      (h h' : Handler D) : Type 0 where
    entry : TrailingEntry D
    others :
        (k : String)
        → lookup k h'.entries_by_placeholder ≡ (
            if generate_placeholder_id primary_order_id == k
            then some entry
            else lookup k h.entries_by_placeholder)
    primaries :
        (k : String)
        → lookup k h'.entries_by_primary ≡ (
            if primary_order_id == k
            then some (generate_placeholder_id primary_order_id)
            else lookup k h.entries_by_primary)
    status : entry.status ≡ pending
    symbol : entry.symbol ≡ order.symbol
    side : entry.side ≡ order.side
    quantity : entry.quantity ≡ order.quantity
    trailing_distance : entry.trailing_distance ≡ distance
    trailing_type : entry.trailing_type ≡ or_default percent order.trailing_type

  pub insert_entry-lookup :
      (e : TrailingEntry D) (h : Handler D) (k : String)
      → lookup k (insert_entry e h).entries_by_placeholder
        ≡ (if e.placeholder_id == k then some e else lookup k h.entries_by_placeholder)
  unfolding insert_entry
  insert_entry-lookup e h k = lookup-insert e.placeholder_id k e h.entries_by_placeholder

  insert_entry-IsRegistered :
      (now : Now) (primary_order_id : String) (order : OrderRequest D) (distance : D)
      (h : Handler D)
      → IsRegistered primary_order_id order distance h
          (insert_entry (entry_of now primary_order_id order distance h) h)
  unfolding insert_entry new_entry
  insert_entry-IsRegistered now primary_order_id order distance h =
      let id = generate_placeholder_id primary_order_id in
      let e = entry_of now primary_order_id order distance h in
      record {
        entry = e;
        others = λ k. lookup-insert id k e h.entries_by_placeholder;
        primaries = λ k. lookup-insert primary_order_id k id h.entries_by_primary;
        status = refl;
        symbol = refl;
        side = refl;
        quantity = refl;
        trailing_distance = refl;
        trailing_type = refl;
      }

  abbrev pub RegisterOutcome :
      (describe : OrderType → String) (now : Now) (primary_order_id : String)
      (order : OrderRequest D) (h : Handler D)
      → Type 0
  RegisterOutcome describe now primary_order_id order h =
      let result = register describe now primary_order_id order h in
      ((acceptable order h ≡ true)
        × ((distance : D) × (order.trailing_distance ≡ some distance)
            × (result ≡ (
              ok (generate_placeholder_id primary_order_id),
              insert_entry (entry_of now primary_order_id order distance h) h,
            ))
            × IsRegistered primary_order_id order distance h result.1))
      ⊎ ((acceptable order h ≡ false) × ((e : GatewayError) × (result ≡ (err e, h))))

  -- Registration either takes an acceptable request, returns the placeholder id of the primary order
  -- and inserts a pending entry with the order's values,
  -- under that id and for that primary order, in the place of what was there, or refuses any other request with an error and changes nothing.
  pub register-outcome :
      (describe : OrderType → String) (now : Now) (primary_order_id : String)
      (order : OrderRequest D) (h : Handler D)
      → RegisterOutcome describe now primary_order_id order h
  unfolding register new_entry
  register-outcome describe now primary_order_id order h =
      let trailing_type = or_default percent order.trailing_type in
      elim (Bool-cases (is_trailing_stop order.order_type)) [
        | inr other ↦ inr (
          rw (other) refl,
          (
            invalid_request ("Expected TrailingStop order, got " ⧺ describe order.order_type) none,
            rw (other) refl,
          ),
        )
        | inl trails ↦ elim (Option-cases order.trailing_distance) [
          | inl missing ↦ inr (
            rw (trails, missing) refl,
            (
              invalid_request "trailing_distance is required for trailing stop orders" none,
              rw (trails, missing) refl,
            ),
          )
          | inr (distance, given) ↦
              elim (distance-outcome now primary_order_id order distance trailing_type h) [
                | inl (fits, room, is) ↦
                    let taken : register describe now primary_order_id order h ≡ (
                      ok (generate_placeholder_id primary_order_id),
                      insert_entry (entry_of now primary_order_id order distance h) h,
                    ) =
                      rw (trails, given) is in
                    inl (
                      rw (trails, given, fits, room) refl,
                      (
                        distance,
                        given,
                        taken,
                        subst (IsRegistered primary_order_id order distance h)
                            (sym (ap (λ r. r.1) taken))
                            (insert_entry-IsRegistered now primary_order_id order distance h),
                      ),
                    )
                | inr (unfit, (e, is)) ↦ inr (rw (trails, given) unfit, (e, rw (trails, given) is))
              ]
        ]
      ]

  validated_fits :
      (order : OrderRequest D) (h : Handler D)
      → is_ok (validate_semantics order) ≡ true
      → is_trailing_stop order.order_type ≡ true
      → ltb (length h.entries_by_placeholder) h.config.max_pending_entries ≡ true
      → acceptable order h ≡ true
  validated_fits order h valid trails room =
      let formed = validate_semantics-ok_iff order in ground (arith, formed, valid, trails, room)

  -- A validated trailing stop order is registered while there is room: under the placeholder id of
  -- its primary order there is then a pending entry with its distance.
  pub register-validated :
      (describe : OrderType → String) (now : Now) (primary_order_id : String)
      (order : OrderRequest D) (h : Handler D)
      → is_ok (validate_semantics order) ≡ true
      → is_trailing_stop order.order_type ≡ true
      → ltb (length h.entries_by_placeholder) h.config.max_pending_entries ≡ true
      → let (result, h') = register describe now primary_order_id order h in
        let id = generate_placeholder_id primary_order_id in
        (result ≡ ok id)
        × ((distance : D) × (order.trailing_distance ≡ some distance)
            × (lookup id h'.entries_by_placeholder
                ≡ some (entry_of now primary_order_id order distance h)))
  unfolding insert_entry new_entry
  register-validated describe now primary_order_id order h valid trails room =
      let fits = validated_fits order h valid trails room in
      elim (register-outcome describe now primary_order_id order h) [
        | inr (unfit, _) ↦ absurd (ground (arith, fits, unfit))
        | inl (_, (distance, given, is, registered)) ↦ rw (is) (
          refl,
          (
            distance,
            given,
            lookup-insert_self (generate_placeholder_id primary_order_id)
                (entry_of now primary_order_id order distance h) h.entries_by_placeholder,
          ),
        )
      ]
