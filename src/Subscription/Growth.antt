-- ===== src/Subscription/Growth.antt =====
-- What a subscription asks for, and that the filter of crates/core/src/subscription/filter.rs grows by
-- that with each subscription.
use trading_gateway.Base.{
  Eq, String, ◌⧺◌, Bool, true, false, ◌&&◌, ◌||◌, Option, none, some, refl, sym, arith, Bool-cases,
  inl, inr, List, [], ◌∷◌, ◌++◌, any, ◌==◌, string_eq, nat_eq, ◌≡◌,
}
use trading_gateway.Base.Map.{Map, insert, lookup, lookup-insert}
use trading_gateway.Models.{TradingPlatform}
use trading_gateway.Subscription.Platforms.{platform_eq}
use trading_gateway.Subscription.{
  Timeframe, as_str, EventKind, kind_beq, SubscribedEvents, no_events, Pattern, everything,
  every_candle, unknown, of_kind, of_timeframe, pattern_of, add_pattern, add_event, add_events,
  includes_candle, includes_event, InstrumentSubscription, SubscriptionFilter, or_none, or_empty,
  or_false, names_account, add_subscription, add_subscriptions, empty_filter, new, passes, found,
  is_empty,
}

-- The specification: what a name of an event in a subscription asks for.
abbrev pub wants_candle : Timeframe → Pattern → Bool
wants_candle timeframe everything = true
wants_candle timeframe every_candle = true
wants_candle timeframe unknown = false
wants_candle timeframe (of_kind kind) = false
wants_candle timeframe (of_timeframe key) = key == ("candle_" ⧺ as_str timeframe)

abbrev pub wants_event : EventKind → Pattern → Bool
wants_event kind everything = true
wants_event kind every_candle = false
wants_event kind unknown = false
wants_event kind (of_kind k) = kind_beq k kind
wants_event kind (of_timeframe key) = false

abbrev pub asks : (Pattern → Bool) → TradingPlatform → String → InstrumentSubscription → Bool
asks wants platform symbol sub =
    (sub.platform == platform)
    && ((sub.instrument == "*" || sub.instrument == symbol)
        && any (λ event. wants (pattern_of event)) sub.events)

abbrev pub asks_account : TradingPlatform → InstrumentSubscription → Bool
asks_account platform sub = (sub.platform == platform) && any names_account sub.events

-- A test of the events that grows by what an added name asks for.
pub record Grows (test : SubscribedEvents → Bool) (wants : Pattern → Bool) : Type 0 where
  nothing : test no_events ≡ false
  added : (p : Pattern) (s : SubscribedEvents) → test (add_pattern p s) ≡ (test s || wants p)

any-append :
    {A : Type 0} (test : A → Bool) (xs ys : List A)
    → any test (xs ++ ys) ≡ (any test xs || any test ys)
any-append test [] ys = refl
any-append test (x ∷ xs) ys = ground (arith, any-append test xs ys)

added_event :
    (kind : EventKind) (p : Pattern) (s : SubscribedEvents)
    → includes_event kind (add_pattern p s) ≡ (includes_event kind s || wants_event kind p)
unfolding includes_event
added_event kind everything s = ground arith
added_event kind every_candle s = ground arith
added_event kind unknown s = ground arith
added_event kind (of_timeframe key) s = ground arith
added_event kind (of_kind k) s = ground (arith, any-append (λ k. kind_beq k kind) s.events (k ∷ []))

added_candle :
    (timeframe : Timeframe) (p : Pattern) (s : SubscribedEvents)
    → includes_candle timeframe (add_pattern p s)
      ≡ (includes_candle timeframe s || wants_candle timeframe p)
unfolding includes_candle
added_candle timeframe everything s = ground arith
added_candle timeframe every_candle s = ground arith
added_candle timeframe unknown s = ground arith
added_candle timeframe (of_kind k) s = ground arith
added_candle timeframe (of_timeframe key) s = ground (
  arith,
  any-append (λ key. key == ("candle_" ⧺ as_str timeframe)) s.candle_timeframes (key ∷ []),
)

pub candle-Grows :
    (timeframe : Timeframe) → Grows (includes_candle timeframe) (wants_candle timeframe)
unfolding includes_candle
candle-Grows timeframe = record { nothing = refl; added = added_candle timeframe }

pub event-Grows : (kind : EventKind) → Grows (includes_event kind) (wants_event kind)
unfolding includes_event
event-Grows kind = record { nothing = refl; added = added_event kind }

module _ (test : SubscribedEvents → Bool) (wants : Pattern → Bool) (g : Grows test wants) where
  test-add_events :
      (events : List String) (s : SubscribedEvents)
      → test (add_events events s) ≡ (test s || any (λ event. wants (pattern_of event)) events)
  unfolding add_events add_event
  test-add_events [] s = ground arith
  test-add_events (event ∷ events) s =
      ground (arith, test-add_events events (add_event event s), g.added (pattern_of event) s)

  passes-or_none : (s : Option SubscribedEvents) → test (or_none s) ≡ passes test s
  passes-or_none none = g.nothing
  passes-or_none (some s) = refl

  passes-insert :
      {K : Type 0} ⦃e : Eq K⦄ (k asked : K) (events : List String) (m : Map K SubscribedEvents)
      → passes test (lookup asked (insert k (add_events events (or_none (lookup k m))) m)) ≡ (
          passes test (lookup asked m)
          || ((k == asked) && any (λ event. wants (pattern_of event)) events))
  passes-insert ⦃e⦄ k asked events m =
      let new_events = add_events events (or_none (lookup k m)) in
      elim (Bool-cases (k == asked)) [
        | inl same ↦
            let is : k ≡ asked = (e.beq_iff k asked).0 same in
            rw (lookup-insert k asked new_events m, same, sym is)
              (ground
                (arith, test-add_events events (or_none (lookup k m)), passes-or_none (lookup k m)))
        | inr differs ↦ rw (lookup-insert k asked new_events m, differs) (ground arith)
      ]

  passes-named :
      (k platform : TradingPlatform) (instrument symbol : String) (events : List String)
      (m : Map TradingPlatform (Map String SubscribedEvents))
      → let subs = or_empty (lookup k m) in
        let grown = insert instrument (add_events events (or_none (lookup instrument subs))) subs in
        passes test (lookup symbol (or_empty (lookup platform (insert k grown m)))) ≡ (
          passes test (lookup symbol (or_empty (lookup platform m)))
          || ((k == platform)
              && ((instrument == symbol) && any (λ event. wants (pattern_of event)) events)))
  passes-named k platform instrument symbol events m =
      let subs = or_empty (lookup k m) in
      let grown = insert instrument (add_events events (or_none (lookup instrument subs))) subs in
      elim (Bool-cases (k == platform)) [
        | inl same ↦
            let is : k ≡ platform = (platform_eq.beq_iff k platform).0 same in
            rw (lookup-insert k platform grown m, same, sym is)
              (passes-insert instrument symbol events subs)
        | inr differs ↦ rw (lookup-insert k platform grown m, differs) (ground arith)
      ]

  found-add_subscription :
      (sub : InstrumentSubscription) (platform : TradingPlatform) (symbol : String)
      (f : SubscriptionFilter)
      → found test platform symbol (add_subscription sub f)
        ≡ (found test platform symbol f || asks wants platform symbol sub)
  unfolding add_subscription
  found-add_subscription sub platform symbol f = elim (Bool-cases (sub.instrument == "*")) [
    | inl star ↦
        rw (star)
          (ground (arith, passes-insert sub.platform platform sub.events f.platform_wildcards))
    | inr named ↦ rw (named) (
        ground (
          arith,
          passes-named sub.platform platform sub.instrument symbol sub.events f.subscriptions,
        ))
  ]

  found-add_subscriptions :
      (subs : List InstrumentSubscription) (platform : TradingPlatform) (symbol : String)
      (f : SubscriptionFilter)
      → found test platform symbol (add_subscriptions subs f)
        ≡ (found test platform symbol f || any (asks wants platform symbol) subs)
  unfolding add_subscriptions
  found-add_subscriptions [] platform symbol f = ground arith
  found-add_subscriptions (sub ∷ subs) platform symbol f = ground (
    arith,
    found-add_subscriptions subs platform symbol (add_subscription sub f),
    found-add_subscription sub platform symbol f,
  )

  pub found-new :
      (subs : List InstrumentSubscription) (platform : TradingPlatform) (symbol : String)
      → found test platform symbol (new subs) ≡ any (asks wants platform symbol) subs
  unfolding new lookup
  found-new subs platform symbol = found-add_subscriptions subs platform symbol empty_filter

abbrev pub accounts_at : TradingPlatform → SubscriptionFilter → Bool
accounts_at platform f = or_false (lookup platform f.account_subscriptions)

account-add_subscription :
    (sub : InstrumentSubscription) (platform : TradingPlatform) (f : SubscriptionFilter)
    → accounts_at platform (add_subscription sub f)
      ≡ (accounts_at platform f || asks_account platform sub)
unfolding add_subscription
account-add_subscription sub platform f =
    let grown = lookup-insert sub.platform platform true f.account_subscriptions in
    elim (Bool-cases (any names_account sub.events)) [
      | inl named ↦ ground (arith, grown, named)
      | inr silent ↦ ground (arith, silent)
    ]

account-add_subscriptions :
    (subs : List InstrumentSubscription) (platform : TradingPlatform) (f : SubscriptionFilter)
    → accounts_at platform (add_subscriptions subs f)
      ≡ (accounts_at platform f || any (asks_account platform) subs)
unfolding add_subscriptions
account-add_subscriptions [] platform f = ground arith
account-add_subscriptions (sub ∷ subs) platform f = ground (
  arith,
  account-add_subscriptions subs platform (add_subscription sub f),
  account-add_subscription sub platform f,
)

pub account-new :
    (subs : List InstrumentSubscription) (platform : TradingPlatform)
    → accounts_at platform (new subs) ≡ any (asks_account platform) subs
unfolding new lookup
account-new subs platform = account-add_subscriptions subs platform empty_filter

abbrev pub passes_all : SubscriptionFilter → Bool
passes_all f = is_empty f.subscriptions && is_empty f.platform_wildcards

inserted :
    {V : Type 0} (k : TradingPlatform) (v : V) (m : Map TradingPlatform V)
    → is_empty (insert k v m) ≡ false
unfolding insert
inserted k v [] = refl
inserted k v (p ∷ m) = ground arith

one_filters :
    (sub : InstrumentSubscription) (f : SubscriptionFilter)
    → passes_all (add_subscription sub f) ≡ false
unfolding add_subscription
one_filters sub f = elim (Bool-cases (sub.instrument == "*")) [
  | inl star ↦ rw (star) (
      ground (
        arith,
        inserted sub.platform
            (add_events sub.events (or_none (lookup sub.platform f.platform_wildcards)))
            f.platform_wildcards,
      ))
  | inr named ↦
      let subs = or_empty (lookup sub.platform f.subscriptions) in
      rw (named) (
        ground (
          arith,
          inserted sub.platform
              (insert sub.instrument (add_events sub.events (or_none (lookup sub.instrument subs)))
                subs)
              f.subscriptions,
        ))
]

pub filters :
    (sub : InstrumentSubscription) (subs : List InstrumentSubscription) (f : SubscriptionFilter)
    → passes_all (add_subscriptions (sub ∷ subs) f) ≡ false
unfolding add_subscriptions
filters sub [] f = one_filters sub f
filters sub (next ∷ subs) f = filters next subs (add_subscription sub f)
