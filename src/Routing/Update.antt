-- ===== src/Routing/Update.antt =====
-- `updateRoute` and `deleteRoute` of backend/src/modules/routing/routing.service.ts.
use logistics_center.Base.{
  ℕ, ◌+◌, not, ◌&&◌, Option, some, List, ◌++◌, ◌==◌, map, filter, get_or, if◌then◌else◌, Result, ok,
  err, bad_request, not_found, invalid_state_transition, ◌>>=◌, ◌>>◌, throw_if, or_throw,
}
use logistics_center.Base.Text.{Text}
use logistics_center.Database.{Table}
use logistics_center.Compensation.Ecma.{Ecma}
use logistics_center.Orders.Columns.{Order}
use logistics_center.Routing.StateMachine.{
  route_cancelled, route_status_eq, can_transition_route, is_route_editable_status,
}
use logistics_center.Routing.Provider.{RouteOptions, UpdateRouteDto, build_updated_route_options}
use logistics_center.Routing.Points.{RoutePointData, build_route_point_create_data}
use logistics_center.Routing.Stored.{serialize_optimization_data, extract_stored_route_options}
use logistics_center.Routing.Rows.{
  Route, RouteRecord, RouteEvent, route_updated, route_cancelled_event, RoutingProvider, is_route,
  points_of, with_coordinates, route_record,
}
use logistics_center.Routing.Service.{
  Caller, ensure_route_editable, is_refused_transition, route_has_plan_changes, Db, Outcome,
  committed, PlannedRoute, plan_route, sync_couriers, find_route, saved_route, emit,
}

abbrev pub other_points : ℕ → ℕ → List RoutePointData → List RoutePointData
other_points company_id route_id points =
    filter (λ p. not (p.company_id == company_id && p.route_id == route_id)) points

module _ {N : Type 0} where
  -- The checks of `updateRoute` before anything is written.
  unfoldable pub check_update : UpdateRouteDto N → Route N → Result (Unit {0})
  check_update dto current = do
    let plan_changes = route_has_plan_changes dto current
    throw_if (plan_changes && not (is_route_editable_status current.status)) bad_request
    throw_if (is_refused_transition current.status dto.status) invalid_state_transition
    throw_if (plan_changes && not (is_route_editable_status (get_or dto.status current.status)))
        bad_request

  -- `updateData` of the update without one
  unfoldable pub patch_route : UpdateRouteDto N → Route N → Route N
  patch_route dto r = record r {
    status = get_or dto.status r.status;
    metadata = get_or dto.metadata r.metadata;
  }

  abbrev pub delete_at : ℕ → Route N → Route N
  delete_at now r = record r { status = route_cancelled; deleted_at = some now }

module _ (js : Ecma) {Decimal : Type 0} (decimal : js.N → Decimal) (text_of : ℕ → Text)
    (parse_date : Text → Option ℕ) (assigned_reason : ℕ) (provider : RoutingProvider js.N Decimal)
    (orders : Table (Order js.N Decimal)) (routes : Table (Route js.N)) where
  open js use {N}

  abbrev DbOf : Type 0
  DbOf = Db js decimal text_of parse_date assigned_reason provider orders routes

  -- `data` of the update with a new plan
  unfoldable pub replan_route :
      UpdateRouteDto N
      → Route N
      → Option ℕ
      → RouteOptions
      → PlannedRoute js decimal text_of parse_date assigned_reason provider orders routes
      → Route N
      → Route N
  replan_route dto current courier_id options made r = record r {
    courier_id = courier_id;
    route_date = get_or dto.route_date current.route_date;
    status = get_or dto.status current.status;
    version = current.version + 1;
    optimization_data = serialize_optimization_data js text_of made.result options;
    metadata = get_or dto.metadata r.metadata;
  }

  -- The transaction of the update with a new plan.
  unfoldable pub store_replanned_route :
      Caller
      → ℕ
      → UpdateRouteDto N
      → Route N
      → Option ℕ
      → RouteOptions
      → PlannedRoute js decimal text_of parse_date assigned_reason provider orders routes
      → DbOf
      → Result (RouteRecord N × DbOf)
  store_replanned_route by route_id dto current courier_id options made db = do
    (_, rows') ←
        or_throw
          (routes.update (is_route by.company_id route_id)
            (replan_route dto current courier_id options made) db.routes_rows)
          not_found
    points ← build_route_point_create_data by.company_id route_id made.plan.orders made.result
    db' ←
        sync_couriers js decimal text_of parse_date assigned_reason provider orders routes by
          route_id courier_id made.plan.orders
          (record db {
            routes_rows = rows';
            points = other_points by.company_id route_id db.points ++ points;
          })
    saved ←
        saved_route js decimal text_of parse_date assigned_reason provider orders routes
          by.company_id route_id db'
    ok (saved, db')

  unfoldable pub store_patched_route :
      Caller → ℕ → UpdateRouteDto N → DbOf → Result (RouteRecord N × DbOf)
  store_patched_route by route_id dto db = do
    (r, rows') ←
        or_throw (routes.update (is_route by.company_id route_id) (patch_route dto) db.routes_rows)
          not_found
    let db' = record db { routes_rows = rows' }
    ok (route_record decimal orders routes by.company_id db' r, db')

  -- The event after the update.
  abbrev pub update_event : Caller → Route N → RouteRecord N → RouteEvent N
  update_event by current updated =
      if not (route_status_eq current.status route_cancelled)
        && route_status_eq updated.route.status route_cancelled
      then route_cancelled_event by.request_id by.actor_user_id current.status updated
      else route_updated by.request_id by.actor_user_id current.status updated

  abbrev pub announce_update :
      Caller → Route N → Result (RouteRecord N × DbOf) → Result (RouteRecord N × DbOf)
  announce_update by current stored = stored >>= λ out. ok (
    out.0,
    emit js decimal text_of parse_date assigned_reason provider orders routes
        (update_event by current out.0) out.1,
  )

  -- `nextOrderIds`, `nextCourierId` and `nextOptions`
  abbrev pub next_order_ids : UpdateRouteDto N → Caller → Route N → DbOf → List ℕ
  next_order_ids dto by current db =
      get_or dto.order_ids (map (λ p. p.order_id) (points_of by.company_id current.id db.points))

  abbrev pub next_courier_id : UpdateRouteDto N → Route N → Option ℕ
  next_courier_id dto current = get_or dto.courier_id current.courier_id

  abbrev pub next_options : UpdateRouteDto N → Route N → RouteOptions
  next_options dto current =
      build_updated_route_options
        (extract_stored_route_options js text_of parse_date current.optimization_data
          current.route_date)
        dto

  -- The branch of `updateRoute` with a new plan.
  unfoldable pub update_plan :
      Caller
      → ℕ
      → UpdateRouteDto N
      → Route N
      → DbOf
      → Outcome js decimal text_of parse_date assigned_reason provider orders routes
  update_plan by route_id dto current db =
      let (saved, made) =
        plan_route js decimal text_of parse_date assigned_reason provider orders routes
          by.company_id (next_order_ids dto by current db) (next_courier_id dto current)
          (next_options dto current) (some route_id) db in
      let before = with_coordinates decimal orders routes by.company_id saved db in
      committed js decimal text_of parse_date assigned_reason provider orders routes before (
        made >>= λ m. announce_update by current (
          store_replanned_route by route_id dto current (next_courier_id dto current)
            (next_options dto current) m before))

  -- After the checks.
  abbrev pub apply_update :
      Caller
      → ℕ
      → UpdateRouteDto N
      → Route N
      → DbOf
      → Outcome js decimal text_of parse_date assigned_reason provider orders routes
  apply_update by route_id dto current db =
      if route_has_plan_changes dto current
      then update_plan by route_id dto current db
      else committed js decimal text_of parse_date assigned_reason provider orders routes db
          (announce_update by current (store_patched_route by route_id dto db))

  abbrev pub checked_update : Caller → ℕ → UpdateRouteDto N → DbOf → Result (Route N)
  checked_update by route_id dto db = do
    current ←
        or_throw
          (find_route js decimal text_of parse_date assigned_reason provider orders routes
            by.company_id route_id db)
          not_found
    check_update dto current
    ok current

  abbrev pub continue_update :
      Caller
      → ℕ
      → UpdateRouteDto N
      → DbOf
      → Result (Route N)
      → Outcome js decimal text_of parse_date assigned_reason provider orders routes
  continue_update by route_id dto db (err thrown) = (db, err thrown)
  continue_update by route_id dto db (ok current) = apply_update by route_id dto current db

  unfoldable pub update_route :
      Caller
      → ℕ
      → UpdateRouteDto N
      → DbOf
      → Outcome js decimal text_of parse_date assigned_reason provider orders routes
  unfolding check_update
  update_route by route_id dto db =
      continue_update by route_id dto db (checked_update by route_id dto db)

  unfoldable pub delete_route : Caller → ℕ → ℕ → DbOf → Result (RouteRecord N × DbOf)
  delete_route by now route_id db = do
    current ←
        or_throw
          (find_route js decimal text_of parse_date assigned_reason provider orders routes
            by.company_id route_id db)
          not_found
    ensure_route_editable current.status
    throw_if (not (can_transition_route current.status route_cancelled)) invalid_state_transition
    (r, rows') ←
        or_throw (routes.update (is_route by.company_id route_id) (delete_at now) db.routes_rows)
          not_found
    let db' = record db { routes_rows = rows' }
    let deleted = route_record decimal orders routes by.company_id db' r
    ok (
      deleted,
      emit js decimal text_of parse_date assigned_reason provider orders routes
          (route_cancelled_event by.request_id by.actor_user_id current.status deleted) db',
    )
