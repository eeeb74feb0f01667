-- ===== src/Config/MetricsHolder.antt =====
-- internal/config/config.go, the metrics port of a `Config`.
use trading_ecosystem_exchan.Common.{Option, none, some}

-- The field `metricsPort`, which is nil at first.
pub record MetricsHolder (Port : Type 0) : Type 0 where
  pub metrics_port : Option Port

abbrev pub no_port : {Port : Type 0} → MetricsHolder Port
no_port = record { metrics_port = none }

-- `SetMetricsPort`
unfoldable pub set_metrics_port : {Port : Type 0} → Port → MetricsHolder Port → MetricsHolder Port
set_metrics_port port c = record { metrics_port = some port }

-- `GetMetricsPort`
unfoldable pub get_metrics_port : {Port : Type 0} → MetricsHolder Port → Option Port
get_metrics_port c = c.metrics_port
