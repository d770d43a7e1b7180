-- ===== src/Routing/Reachable.antt =====
-- Sequences of calls of backend/src/modules/routing/routing.service.ts for one company, in any order;
-- a call that throws leaves what it has written.
use logistics_center.Base.{ℕ, ◌≡◌, refl, sym, subst, Option, ok}
use logistics_center.Base.Text.{Text}
use logistics_center.Database.{Table}
use logistics_center.Database.PrimaryKey.{IsPrimaryKey}
use logistics_center.Compensation.Ecma.{Ecma}
use logistics_center.Orders.Columns.{Order}
use logistics_center.Routing.Provider.{BuildRouteDto, UpdateRouteDto}
use logistics_center.Routing.Rows.{Route, RouteRecord, RoutingProvider}
use logistics_center.Routing.Service.{Caller, Db, build_route, preview_route}
use logistics_center.Routing.Update.{update_route, delete_route}
use logistics_center.Routing.Exclusive.{route_id_of, IsSound}
use logistics_center.Routing.Building.{IsSound-same, build_route-IsSound}
use logistics_center.Routing.Safety.{update_route-IsSound, delete_route-IsSound}

module _ (js : Ecma) {Decimal : Type 0} (decimal : js.N → Decimal) (text_of : ℕ → Text)
    (parse_date : Text → Option ℕ) (assigned_reason : ℕ) (provider : RoutingProvider js.N Decimal)
    (orders : Table (Order js.N Decimal)) (routes : Table (Route js.N)) where
  open js use {N}

  abbrev DbOf : Type 0
  DbOf = Db js decimal text_of parse_date assigned_reason provider orders routes

  pub data RoutingStep (company_id : ℕ) : DbOf → DbOf → Type 0 where
    built :
        (by : Caller) (dto : BuildRouteDto N) (db : DbOf)
        → by.company_id ≡ company_id
        → RoutingStep company_id db
            (build_route js decimal text_of parse_date assigned_reason provider orders routes by dto
              db).0
    previewed :
        (dto : BuildRouteDto N) (db : DbOf)
        → RoutingStep company_id db
            (preview_route js decimal text_of parse_date assigned_reason provider orders routes
              company_id dto db).0
    updated :
        (by : Caller) (route_id : ℕ) (dto : UpdateRouteDto N) (db : DbOf)
        → by.company_id ≡ company_id
        → RoutingStep company_id db
            (update_route js decimal text_of parse_date assigned_reason provider orders routes by
              route_id dto db).0
    deleted :
        (by : Caller) (now route_id : ℕ) (db db' : DbOf) (saved : RouteRecord N)
        → by.company_id ≡ company_id
        → delete_route js decimal text_of parse_date assigned_reason provider orders routes by now
            route_id db
          ≡ ok (saved, db')
        → RoutingStep company_id db db'

  pub data Reaches (company_id : ℕ) (first : DbOf) : DbOf → Type 0 where
    here : Reaches company_id first first
    next :
        {db db' : DbOf}
        → Reaches company_id first db
        → RoutingStep company_id db db'
        → Reaches company_id first db'

  preview_route-IsSound :
      (company_id : ℕ) (dto : BuildRouteDto N) (db : DbOf)
      → IsSound decimal orders routes company_id db
      → IsSound decimal orders routes company_id
          (preview_route js decimal text_of parse_date assigned_reason provider orders routes
            company_id dto db).0
  unfolding preview_route
  preview_route-IsSound company_id dto db inv =
      IsSound-same js decimal text_of parse_date assigned_reason provider orders routes company_id
        db _ refl refl inv

  RoutingStep-IsSound :
      {company_id : ℕ} {db db' : DbOf}
      → IsPrimaryKey routes route_id_of
      → RoutingStep company_id db db'
      → IsSound decimal orders routes company_id db
      → IsSound decimal orders routes company_id db'
  RoutingStep-IsSound fresh (built by dto db own) inv =
      subst
        (λ c.
          IsSound decimal orders routes c
            (build_route js decimal text_of parse_date assigned_reason provider orders routes by dto
              db).0)
        own
        (build_route-IsSound js decimal text_of parse_date assigned_reason provider orders routes by
          dto db fresh (subst (λ c. IsSound decimal orders routes c db) (sym own) inv))
  RoutingStep-IsSound fresh (previewed dto db) inv = preview_route-IsSound _ dto db inv
  RoutingStep-IsSound fresh (updated by route_id dto db own) inv =
      subst
        (λ c.
          IsSound decimal orders routes c
            (update_route js decimal text_of parse_date assigned_reason provider orders routes by
              route_id dto db).0)
        own
        (update_route-IsSound js decimal text_of parse_date assigned_reason provider orders routes
          by route_id dto db (subst (λ c. IsSound decimal orders routes c db) (sym own) inv))
  RoutingStep-IsSound fresh (deleted by now route_id db db' saved own h) inv =
      subst (λ c. IsSound decimal orders routes c db') own
        (delete_route-IsSound js decimal text_of parse_date assigned_reason provider orders routes
          by now route_id db saved db' h
          (subst (λ c. IsSound decimal orders routes c db) (sym own) inv))

  -- After any sequence of calls for a company, returning or throwing, no order of it stands on two
  -- active routes, every point is of a route that there is, and identifiers of routes are a key.
  pub Reaches-IsSound :
      (company_id : ℕ) (first db : DbOf)
      → IsPrimaryKey routes route_id_of
      → IsSound decimal orders routes company_id first
      → Reaches company_id first db
      → IsSound decimal orders routes company_id db
  Reaches-IsSound company_id first db fresh inv here = inv
  Reaches-IsSound company_id first db fresh inv (next {db = db0} before step) =
      RoutingStep-IsSound fresh step (Reaches-IsSound company_id first db0 fresh inv before)
