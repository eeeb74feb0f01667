-- ===== src/ExchangeService.antt =====
-- internal/services/exchange.go: the order service, which answers every call alike so far.
use trading_ecosystem_exchan.Common.{◌≡◌, refl, String, Result, ok}
use trading_ecosystem_exchan.Config.{Config}
use trading_ecosystem_exchan.Config.Sample.{cfg}

pub record ExchangeService : Type 0 where
  pub config : Config

-- `NewExchangeService`
unfoldable pub new_exchange_service : Config → ExchangeService
new_exchange_service cfg = record { config = cfg }

-- `PlaceOrder`, which logs its arguments; `Amount` is the type of a quantity and of a price
unfoldable pub place_order :
    {Fault Amount : Type 0}
    → ExchangeService
    → String
    → Amount
    → Amount
    → String
    → Result Fault String
place_order s symbol quantity price side = ok "order-123"

-- `GetOrderStatus`
unfoldable pub get_order_status : {Fault : Type 0} → ExchangeService → String → Result Fault String
get_order_status s order_id = ok "filled"

one_id :
    place_order {Fault = Unit} (new_exchange_service cfg) "BTC-USD" tt tt "buy" ≡ ok "order-123"
unfolding place_order
one_id = refl

always_filled : get_order_status {Fault = Unit} (new_exchange_service cfg) "unknown" ≡ ok "filled"
unfolding get_order_status
always_filled = refl
