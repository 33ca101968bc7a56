-- ===== src/Subscription/Platforms.antt =====
-- Equality of the platforms of crates/core/src/models/platform.rs, by their texts.
use trading_gateway.Base.{
  String, Bool, true, Option, none, some, ◌==◌, string_eq, nat_eq, if◌then◌else◌, ◌≡◌, ◌↔◌, refl,
  sym, ap, ◌∙◌, Eq,
}
use trading_gateway.Models.{
  TradingPlatform, header_value, alpaca_live, alpaca_paper, binance_spot_live, binance_spot_testnet,
  binance_futures_live, binance_futures_testnet, binance_margin_live, binance_margin_testnet,
  binance_coin_futures_live, binance_coin_futures_testnet, oanda_practice, oanda_live, saxo_sim,
  saxo_live, tektii, mock,
}

-- The platform of a text.
unfoldable platform_of : String → Option TradingPlatform
platform_of s =
    if s == "alpaca-live"
    then some alpaca_live
    else if s == "alpaca-paper"
    then some alpaca_paper
    else if s == "binance-spot-live"
    then some binance_spot_live
    else if s == "binance-spot-testnet"
    then some binance_spot_testnet
    else if s == "binance-futures-live"
    then some binance_futures_live
    else if s == "binance-futures-testnet"
    then some binance_futures_testnet
    else if s == "binance-margin-live"
    then some binance_margin_live
    else if s == "binance-margin-testnet"
    then some binance_margin_testnet
    else if s == "binance-coin-futures-live"
    then some binance_coin_futures_live
    else if s == "binance-coin-futures-testnet"
    then some binance_coin_futures_testnet
    else if s == "oanda-practice"
    then some oanda_practice
    else if s == "oanda-live"
    then some oanda_live
    else if s == "saxo-sim"
    then some saxo_sim
    else if s == "saxo-live"
    then some saxo_live
    else if s == "tektii"
    then some tektii
    else if s == "mock"
    then some mock
    else none

platform-text : (p : TradingPlatform) → platform_of (header_value p) ≡ some p
unfolding platform_of header_value
platform-text alpaca_live = refl
platform-text alpaca_paper = refl
platform-text binance_spot_live = refl
platform-text binance_spot_testnet = refl
platform-text binance_futures_live = refl
platform-text binance_futures_testnet = refl
platform-text binance_margin_live = refl
platform-text binance_margin_testnet = refl
platform-text binance_coin_futures_live = refl
platform-text binance_coin_futures_testnet = refl
platform-text oanda_practice = refl
platform-text oanda_live = refl
platform-text saxo_sim = refl
platform-text saxo_live = refl
platform-text tektii = refl
platform-text mock = refl

abbrev or_mock : Option TradingPlatform → TradingPlatform
or_mock none = mock
or_mock (some p) = p

unfoldable pub platform_beq : TradingPlatform → TradingPlatform → Bool
platform_beq p q = header_value p == header_value q

same_text : (p q : TradingPlatform) → header_value p ≡ header_value q → p ≡ q
same_text p q same = ap or_mock (sym (platform-text p) ∙ ap platform_of same ∙ platform-text q)

pub platform_beq_iff : (p q : TradingPlatform) → (platform_beq p q ≡ true) ↔ (p ≡ q)
unfolding platform_beq
platform_beq_iff p q = (
  λ h. same_text p q ((string_eq.beq_iff (header_value p) (header_value q)).0 h),
  λ h. (string_eq.beq_iff (header_value p) (header_value q)).1 (ap header_value h),
)

instance abbrev pub platform_eq : Eq TradingPlatform
platform_eq = record { beq = platform_beq; beq_iff = platform_beq_iff }
