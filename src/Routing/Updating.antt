-- ===== src/Routing/Updating.antt =====
-- `updateRoute` and `deleteRoute` of backend/src/modules/routing/routing.service.ts keep the tables of
-- routes sound.
use logistics_center.Base.{
  ℕ, ◌≡◌, refl, sym, ap, subst, ◌∙◌, inl, inr, true, false, ◌&&◌, Option, some, List, ◌++◌, ◌==◌,
  ==_iff, &&_iff, length, Elem, get_or, Option-cases, arith,
}
use logistics_center.Base.Text.{Text}
use logistics_center.Database.{Table}
use logistics_center.Database.ListTable.{filter_sound}
use logistics_center.Database.PrimaryKey.{update-AreKeyed, update-Exists}
use logistics_center.Compensation.Ecma.{Ecma}
use logistics_center.Orders.Columns.{Order}
use logistics_center.Routing.StateMachine.{
  RouteStatus, draft, planned, in_progress, completed, route_cancelled, can_transition_route,
  allowed_route_transitions, includes_route_status,
}
use logistics_center.Routing.Provider.{UpdateRouteDto}
use logistics_center.Routing.Points.{RoutePointData}
use logistics_center.Routing.Rows.{
  Route, RoutingProvider, is_route, is_kept, is_active_route, active_route_statuses,
  find_conflicting_route_points,
}
use logistics_center.Routing.Service.{Db, is_refused_transition}
use logistics_center.Routing.Update.{patch_route, other_points}
use logistics_center.Routing.Exclusive.{
  route_id_of, IsSound, free_of_conflicts, of_other_route, IsExclusive-rewritten,
  IsExclusive-deactivated,
}
use logistics_center.Routing.Replacing.{Elem-append}

pub is_route_id :
    {N : Type 0} (company_id route_id : ℕ) (r : Route N)
    → is_route company_id route_id r ≡ true
    → r.id ≡ route_id
is_route_id company_id route_id r h =
    (==_iff r.id route_id).0 ((&&_iff (r.company_id == company_id) (r.id == route_id)).0 h).1

-- A route that the machine lets become active was active.
transition_active :
    (current status : RouteStatus)
    → is_refused_transition current (some status) ≡ false
    → includes_route_status active_route_statuses status ≡ true
    → includes_route_status active_route_statuses current ≡ true
unfolding can_transition_route allowed_route_transitions
transition_active draft status h k = refl
transition_active planned status h k = refl
transition_active in_progress status h k = refl
transition_active completed completed h k = k
transition_active completed draft h k = absurd (ground arith)
transition_active completed planned h k = absurd (ground arith)
transition_active completed in_progress h k = absurd (ground arith)
transition_active completed route_cancelled h k = k
transition_active route_cancelled completed h k = k
transition_active route_cancelled draft h k = absurd (ground arith)
transition_active route_cancelled planned h k = absurd (ground arith)
transition_active route_cancelled in_progress h k = absurd (ground arith)
transition_active route_cancelled route_cancelled h k = k

pub patched_active :
    {N : Type 0} (dto : UpdateRouteDto N) (r : Route N)
    → is_refused_transition r.status dto.status ≡ false
    → is_active_route (patch_route dto r) ≡ true
    → is_active_route r ≡ true
unfolding is_active_route patch_route
patched_active dto r h k = elim (Option-cases dto.status) [
  | inl n ↦ ground (arith, n, k)
  | inr (status, e) ↦
      let (kept, on) =
        (&&_iff (is_kept r)
            (includes_route_status active_route_statuses (get_or dto.status r.status))).0
          k in
      let refused : is_refused_transition r.status (some status) ≡ false =
        ap (is_refused_transition r.status) (sym e) ∙ h in
      let was =
        transition_active r.status status refused (
          ap (λ o. includes_route_status active_route_statuses (get_or o r.status)) (sym e) ∙ on) in
      rw kept was
]

module _ (js : Ecma) {Decimal : Type 0} (decimal : js.N → Decimal) (text_of : ℕ → Text)
    (parse_date : Text → Option ℕ) (assigned_reason : ℕ) (provider : RoutingProvider js.N Decimal)
    (orders : Table (Order js.N Decimal)) (routes : Table (Route js.N)) where
  open js use {N}

  abbrev DbOf : Type 0
  DbOf = Db js decimal text_of parse_date assigned_reason provider orders routes

  -- An update of a route that keeps its identifier, and after which it is active only if it was, where
  -- its points stay.
  pub patched-IsSound :
      (company_id route_id : ℕ) (f : Route N → Route N) (db db' : DbOf) (q : Route N)
      → ((r : Route N) → (f r).id ≡ r.id)
      → ((r : Route N)
          → routes.Has db.routes_rows r
          → is_route company_id route_id r ≡ true
          → is_active_route (f r) ≡ true
          → is_active_route r ≡ true)
      → routes.update (is_route company_id route_id) f db.routes_rows ≡ some (q, db'.routes_rows)
      → db'.points ≡ db.points
      → IsSound decimal orders routes company_id db
      → IsSound decimal orders routes company_id db'
  patched-IsSound company_id route_id f db db' q keeps active written points inv = record {
    keyed =
        update-AreKeyed routes route_id_of (is_route company_id route_id) f route_id db.routes_rows
          db'.routes_rows q (is_route_id company_id route_id) keeps written inv.keyed;
    referenced = λ p m.
        update-Exists routes route_id_of (is_route company_id route_id) f route_id db.routes_rows
          db'.routes_rows q (is_route_id company_id route_id) keeps written p.route_id
          (inv.referenced p (subst (Elem p) points m));
    exclusive =
        IsExclusive-deactivated decimal orders routes company_id db db' points
          (λ k (r, has, e, on).
            elim (routes.update_has _ f db.routes_rows q db'.routes_rows r written has) [
              | inl (r0, has0, meets, same) ↦ (
                r0,
                has0,
                sym (keeps r0) ∙ sym (ap (λ x. x.id) same) ∙ e,
                active r0 has0 meets (subst (λ x. is_active_route x ≡ true) same on),
              )
              | inr (old, _) ↦ (r, old, e, on)
            ])
          inv.exclusive;
  }

  -- An update of a route that keeps its identifier, with new points for orders that no other active
  -- route has.
  pub replanned-IsSound :
      (company_id route_id : ℕ) (f : Route N → Route N) (order_ids : List ℕ) (db db' : DbOf)
      (q : Route N) (points : List RoutePointData)
      → ((r : Route N) → (f r).id ≡ r.id)
      → routes.update (is_route company_id route_id) f db.routes_rows ≡ some (q, db'.routes_rows)
      → db'.points ≡ other_points company_id route_id db.points ++ points
      → length (
          find_conflicting_route_points decimal orders routes company_id db order_ids
            (some route_id))
        ≡ 0
      → ((p : RoutePointData)
          → Elem p points
          → (p.route_id ≡ route_id) × (p.company_id ≡ company_id) × Elem p.order_id order_ids)
      → IsSound decimal orders routes company_id db
      → IsSound decimal orders routes company_id db'
  replanned-IsSound company_id route_id f order_ids db db' q points keeps written same free of_plan
        inv =
      let kept : (p : RoutePointData)
          → Elem p (other_points company_id route_id db.points)
          → Elem p db.points × ((p.company_id == company_id && p.route_id == route_id) ≡ false) =
        λ p m. let (old, apart) = filter_sound _ db.points p m in (old, ground (arith, apart)) in
      record {
        keyed =
            update-AreKeyed routes route_id_of (is_route company_id route_id) f route_id
              db.routes_rows db'.routes_rows q (is_route_id company_id route_id) keeps written
              inv.keyed;
        referenced = λ p m. elim (Elem-append p _ points (subst (Elem p) same m)) [
          | inl k ↦
              update-Exists routes route_id_of (is_route company_id route_id) f route_id
                db.routes_rows db'.routes_rows q (is_route_id company_id route_id) keeps written
                p.route_id (inv.referenced p (kept p k).0)
          | inr k ↦
              let (route, _, _) = of_plan p k in
              let (r0, _, meets, e) =
                routes.update_row _ f db.routes_rows q db'.routes_rows written in
              (
                q,
                routes.update_in _ f db.routes_rows q db'.routes_rows written,
                ap (λ x. x.id) e ∙ keeps r0 ∙ is_route_id company_id route_id r0 meets ∙ sym route,
              )
        ];
        exclusive =
            IsExclusive-rewritten decimal orders routes company_id route_id order_ids db db'
              (λ p m c. elim (Elem-append p _ points (subst (Elem p) same m)) [
                | inl k ↦
                    let (old, apart) = kept p k in
                    inr (
                      old,
                      λ e.
                          let on : (p.company_id == company_id && p.route_id == route_id) ≡ true =
                            ground (arith, c, e) in
                          absurd (true≢false (sym on ∙ apart)),
                    )
                | inr k ↦ let (route, _, order) = of_plan p k in inl (route, order)
              ])
              (λ k other (r, has, e, active).
                elim (routes.update_has _ f db.routes_rows q db'.routes_rows r written has) [
                  | inl (r0, _, meets, is) ↦ absurd (
                      other (
                        sym e
                        ∙ ap (λ x. x.id) is
                        ∙ keeps r0
                        ∙ is_route_id company_id route_id r0 meets))
                  | inr (old, _) ↦ (r, old, e, active)
                ])
              (λ p m c other order active.
                free_of_conflicts decimal orders routes company_id db order_ids (some route_id) p
                  free m c order (of_other_route decimal orders routes route_id p other) active)
              inv.exclusive;
      }
    where
      true≢false : true ≡ false → ⊥
      true≢false h = cc
