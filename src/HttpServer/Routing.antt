-- ===== src/HttpServer/Routing.antt =====
-- Where the server sends a request.
use Prim.Native.String.{◌++◌}
use trading_ecosystem_exchan.Common.{
  ◌≡◌, ◌⊎◌, inl, inr, refl, ap, ◌∙◌, String, true, false, List, [], ◌∷◌, All, ◌==◌,
}
use trading_ecosystem_exchan.Common.Http.{Answer}
use trading_ecosystem_exchan.Common.Text.{codes}
use trading_ecosystem_exchan.HttpServer.Gin.{
  Route, Routed, found, redirected, missed, Gin, Documented, is_plain, has_method,
}
use trading_ecosystem_exchan.HttpServer.Setup.{
  Endpoint, health_endpoint, ready_endpoint, metrics_endpoint, routes,
}

pub Routed-cases :
    {H : Type 0} (r : Routed H)
    → ((pattern : String) × (h : H) × (r ≡ found pattern h))
      ⊎ ((a : Answer) × (r ≡ redirected a))
      ⊎ (r ≡ missed)
Routed-cases (found pattern h) = inl (pattern, h, refl)
Routed-cases (redirected a) = inr (inl (a, refl))
Routed-cases missed = inr (inr refl)

-- The routes, with their paths written out.
abbrev pub table : List (Route Endpoint)
table =
    record { method = "GET"; pattern = "/api/v1/health"; handler = health_endpoint }
    ∷ record { method = "GET"; pattern = "/api/v1/ready"; handler = ready_endpoint }
    ∷ record { method = "GET"; pattern = "/metrics"; handler = metrics_endpoint }
    ∷ []

table-plain : All (λ r. is_plain (codes r.pattern) ≡ true) table
unfolding codes
table-plain = (refl, (refl, (refl, tt)))

has_method-table : (m : String) → ("GET" == m) ≡ false → has_method m table ≡ false
has_method-table m h = rw h refl

module _ {g : Gin} (d : Documented g) where
  group-path :
      (path : String)
      → is_plain (codes path) ≡ true
      → g.join_paths (g.join_paths "/" "/api/v1") path ≡ "/api/v1" ++ path
  unfolding codes
  group-path path h =
      ap (λ v1. g.join_paths v1 path) (d.join_paths-root "/api/v1" refl)
      ∙ d.join_paths-plain "/api/v1" path refl h

  routes-table : routes g ≡ table
  unfolding routes codes
  routes-table =
      let health_path = group-path "/health" refl in
      let ready_path = group-path "/ready" refl in
      let metrics_path = d.join_paths-root "/metrics" refl in
      λ i.
        record { method = "GET"; pattern = health_path i; handler = health_endpoint }
        ∷ record { method = "GET"; pattern = ready_path i; handler = ready_endpoint }
        ∷ record { method = "GET"; pattern = metrics_path i; handler = metrics_endpoint }
        ∷ []

  pub route-health :
      g.route (routes g) "GET" "/api/v1/health" ≡ found "/api/v1/health" health_endpoint
  route-health =
      rw routes-table (d.route-listed table "GET" "/api/v1/health" health_endpoint table-plain refl)

  pub route-ready : g.route (routes g) "GET" "/api/v1/ready" ≡ found "/api/v1/ready" ready_endpoint
  route-ready =
      rw routes-table (d.route-listed table "GET" "/api/v1/ready" ready_endpoint table-plain refl)

  pub route-metrics : g.route (routes g) "GET" "/metrics" ≡ found "/metrics" metrics_endpoint
  route-metrics =
      rw routes-table (d.route-listed table "GET" "/metrics" metrics_endpoint table-plain refl)

  pub route-not_get : (m path : String) → ("GET" == m) ≡ false → g.route (routes g) m path ≡ missed
  route-not_get m path h = rw routes-table (d.route-missed table m path (has_method-table m h))
