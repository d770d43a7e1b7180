-- ===== src/Routing/Planning.antt =====
-- `resolveRoutePlan` of backend/src/modules/routing/routing.service.ts keeps what it promises.
use logistics_center.Base.{
  Elem, Error, ℕ, ◌≤◌, ◌≡◌, sym, ap, subst, ◌∙◌, inl, inr, Bool, true, false, not, ◌&&◌, Option,
  List, ◌++◌, ◌==◌, ltb, length, Distinct, Result-cases, When, When_intro, ok, err, bad_request,
  not_found, conflict, bind_returns, ok_injective, throw_if, arith, ◌>>=◌,
}
use logistics_center.Routing.Provider.{RoutePoint, RouteOptions}
use logistics_center.Routing.Plan.{
  RouteOrder, RouteCourier, ResolvedRoutePlan, PlanSources, unique_ids, any_terminal,
  ordered_orders, starts_with_courier, resolve_order_coordinates, courier_points, order_points,
  build_provider_points, courier_of_route, plan_orders, finish_plan, resolve_route_plan,
}
use logistics_center.Routing.Points.{ordered_order_ids}
use logistics_center.Routing.Resolved.{
  unique_ids-Distinct, ids_of, ids_of-ordered_orders, none_terminal, ordered_orders-Elem,
  ordered-order_points, ordered-courier_points, resolve_order_coordinates-IsLocated, IsResolved,
}

module _ {N Decimal : Type 0} (sources : PlanSources N Decimal) where
  plan_orders_lem :
      (order_ids : List ℕ) (exclude : Option ℕ) (found : List (RouteOrder Decimal))
      → plan_orders sources order_ids exclude ≡ ok found
      → Distinct order_ids
        × (ids_of found ≡ order_ids)
        × (any_terminal found ≡ false)
        × (length (sources.find_conflicting_route_points order_ids exclude) ≡ 0)
        × ((o : RouteOrder Decimal) → Elem o found → Elem o (sources.find_orders order_ids))
  unfolding plan_orders
  plan_orders_lem order_ids exclude found h =
      let ids = unique_ids order_ids in
      let (_, unrepeated, h1) =
        bind_returns (throw_if (not (length ids == length order_ids)) bad_request) _ h in
      let orders = sources.find_orders ids in
      let (_, complete, h2) =
        bind_returns (throw_if (not (length orders == length ids)) not_found) _ h1 in
      let (os, ordered, h3) = bind_returns (ordered_orders orders ids) _ h2 in
      let (_, going, h4) = bind_returns (throw_if (any_terminal os) bad_request) _ h3 in
      let conflicts = sources.find_conflicting_route_points ids exclude in
      let (_, free, h5) = bind_returns (throw_if (ltb 0 (length conflicts)) conflict) _ h4 in
      let same_length : length ids ≡ length order_ids = ground (arith, unrepeated) in
      let (same, distinct) = unique_ids-Distinct order_ids same_length in
      let found_same : os ≡ found = ok_injective os found h5 in
      let none_found : length conflicts ≡ 0 = ground (arith, free) in
      let going' : any_terminal os ≡ false = ground (arith, going) in
      (
        distinct,
        ap ids_of (sym found_same) ∙ ids_of-ordered_orders orders ids os ordered ∙ same,
        ap any_terminal (sym found_same) ∙ going',
        ap (λ is. length (sources.find_conflicting_route_points is exclude)) (sym same)
            ∙ none_found,
        λ o m.
            subst (λ is. Elem o (sources.find_orders is)) same
              (ordered_orders-Elem orders ids os o ordered (subst (Elem o) (sym found_same) m)),
      )

  build_provider_points_lem :
      (orders : List (RouteOrder Decimal)) (c : Option (RouteCourier Decimal))
      (options : RouteOptions) (points : List (RoutePoint N))
      → build_provider_points sources orders c options ≡ ok points
      → (ordered_order_ids points ≡ ids_of orders)
        × (2 ≤ length points)
        × When options.return_to_start (starts_with_courier points ≡ true)
  unfolding build_provider_points
  build_provider_points_lem orders c options points h =
      let (dropoffs, e1, h1) = bind_returns (order_points sources orders) _ h in
      let all = courier_points sources c ++ dropoffs in
      let (_, enough, h2) = bind_returns (throw_if (ltb (length all) 2) bad_request) _ h1 in
      let (_, start, h3) =
        bind_returns
          (throw_if (options.return_to_start && not (starts_with_courier all)) bad_request) _ h2 in
      let same : all ≡ points = ok_injective all points h3 in
      let enough' : 2 ≤ length all = ground (arith, enough) in
      (
        ap ordered_order_ids (sym same)
            ∙ ordered-courier_points sources c dropoffs
            ∙ ordered-order_points sources orders dropoffs e1,
        subst (λ ps. 2 ≤ length ps) same enough',
        subst (λ ps. When options.return_to_start (starts_with_courier ps ≡ true)) same
            (When_intro options.return_to_start
              λ t. starts options.return_to_start (starts_with_courier all) t start),
      )
    where
      starts : (r s : Bool) → r ≡ true → throw_if (r && not s) bad_request ≡ ok tt → s ≡ true
      starts r s t h = ground (arith, t, h)

  -- A plan that is returned has exactly the requested orders, in the requested order and without
  -- repetition. None of them is in a terminal status or on another active route, and all have
  -- coordinates. The provider is given each of them once, in that order, and at least two points,
  -- which start at the courier where the route is to return to its start.
  pub resolve_route_plan-IsResolved :
      (company_id : ℕ) (order_ids : List ℕ) (courier_id : Option ℕ) (options : RouteOptions)
      (exclude : Option ℕ) (plan : ResolvedRoutePlan N Decimal)
      → (resolve_route_plan sources company_id order_ids courier_id options exclude).1 ≡ ok plan
      → IsResolved sources order_ids exclude options plan
  unfolding resolve_route_plan
  resolve_route_plan-IsResolved company_id order_ids courier_id options exclude plan h =
      elim (Result-cases (plan_orders sources order_ids exclude)) [
        | inl (thrown, failed) ↦
            let stopped : err thrown ≡ ok plan = rw failed at h in absurd (differ stopped)
        | inr (found, e) ↦
            let (distinct, ids, going, free, among) = plan_orders_lem order_ids exclude found e in
            let resolved : ((resolve_order_coordinates sources found).1 >>= λ orders.
            finish_plan sources company_id courier_id options orders)
                ≡ ok plan =
              rw e at h in
            let (orders, e1, h1) =
              bind_returns (resolve_order_coordinates sources found).1 _ resolved in
            let located = resolve_order_coordinates-IsLocated sources found orders e1 in
            let (c, e2, h2) = bind_returns (courier_of_route sources company_id courier_id) _ h1 in
            let (points, e3, h3) =
              bind_returns (build_provider_points sources orders c options) _ h2 in
            let (visited, enough, start) = build_provider_points_lem orders c options points e3 in
            subst (IsResolved sources order_ids exclude options) (ok_injective _ plan h3) (record {
              planned = located.same_ids ∙ ids;
              distinct = distinct;
              open_orders = λ o. none_terminal orders o (located.same_terminal ∙ going);
              located = located.located;
              sourced = λ o m. let (x, has, i, s) = located.sourced o m in (x, among x has, i, s);
              free = free;
              visited = visited ∙ located.same_ids ∙ ids;
              enough = enough;
              start = start;
            })
      ]
    where
      differ : {thrown : Error} → err thrown ≡ ok plan → ⊥
      differ e = cc
