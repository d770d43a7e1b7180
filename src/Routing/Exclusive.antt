-- ===== src/Routing/Exclusive.antt =====
-- The tables of routes in backend/src/modules/routing/routing.service.ts: an order stands on one active
-- route at most, and how a write to the routes and their points keeps that.
use logistics_center.Base.{
  ℕ, ◌≡◌, ◌≢◌, refl, sym, ap, subst, ◌∙◌, ◌⊎◌, inl, inr, Bool, true, false, ◌&&◌, Option, some,
  List, [], ◌∷◌, ◌==◌, ==_refl, differs, contains, Elem-contains, map, filter, length, truthy, Elem,
  Bool-cases, Option-cases, arith,
}
use logistics_center.Database.{Table}
use logistics_center.Database.PrimaryKey.{AreKeyed, Exists}
use logistics_center.Orders.Columns.{Order}
use logistics_center.Routing.Points.{RoutePointData}
use logistics_center.Routing.Rows.{
  Route, RoutingDb, is_active_route, on_active_route, not_of_route, find_conflicting_route_points,
}

filter_empty :
    {A B : Type 0} (f : A → B) (test : A → Bool) (xs : List A) (x : A)
    → length (map f (filter test xs)) ≡ 0
    → Elem x xs
    → test x ≡ false
filter_empty f test [] x h m = absurd m
filter_empty f test (y ∷ ys) x h m = elim (Bool-cases (test y)) [
  | inl t ↦ absurd (ground (arith, t))
  | inr n ↦ elim m [
    | inl e ↦ ap test e ∙ n
    | inr k ↦ filter_empty f test ys x (ground (arith, n)) k
  ]
]

abbrev pub route_id_of : {N : Type 0} → Route N → ℕ
route_id_of r = r.id

module _ {N Decimal : Type 0} (decimal : N → Decimal) (orders : Table (Order N Decimal))
    (routes : Table (Route N)) where
  abbrev DbOf : Type 0
  DbOf = RoutingDb decimal orders routes

  -- There is an active route with the identifier.
  abbrev pub IsActive : DbOf → ℕ → Type 0
  IsActive db route_id =
      (r : Route N) × routes.Has db.routes_rows r × (r.id ≡ route_id) × (is_active_route r ≡ true)

  -- Of a company's points for one order all that are on active routes are on the same.
  abbrev pub IsExclusive : ℕ → DbOf → Type 0
  IsExclusive company_id db =
      (p q : RoutePointData)
      → Elem p db.points
      → Elem q db.points
      → p.company_id ≡ company_id
      → q.company_id ≡ company_id
      → p.order_id ≡ q.order_id
      → IsActive db p.route_id
      → IsActive db q.route_id
      → p.route_id ≡ q.route_id

  -- The identifiers of routes are a key, each point is of a route that there is, and an order stands
  -- on one active route at most.
  pub record IsSound (company_id : ℕ) (db : DbOf) : Type 0 where
    pub keyed : AreKeyed routes route_id_of db.routes_rows
    pub referenced :
        (p : RoutePointData)
        → Elem p db.points
        → Exists routes route_id_of db.routes_rows p.route_id
    pub exclusive : IsExclusive company_id db

  pub found_active :
      (db : DbOf) (p : RoutePointData)
      → IsActive db p.route_id
      → on_active_route decimal orders routes db p ≡ true
  unfolding on_active_route is_active_route
  found_active db p (r, has, named, active) =
      elim (Option-cases
        (routes.find_first (λ r. r.id == p.route_id && is_active_route r) db.routes_rows)) [
          | inl missing ↦
              let fails = routes.find_first_none _ db.routes_rows r missing has in
              let meets : (r.id == p.route_id && is_active_route r) ≡ true =
                rw named (rw (==_refl p.route_id) active) in
              absurd (true≢false (sym meets ∙ fails))
          | inr (x, found) ↦ rw found refl
        ]
    where
      true≢false : true ≡ false → ⊥
      true≢false h = cc

  -- Where the query of conflicts finds nothing, no point of another active route has one of the orders.
  pub free_of_conflicts :
      (company_id : ℕ) (db : DbOf) (order_ids : List ℕ) (exclude : Option ℕ) (p : RoutePointData)
      → length (find_conflicting_route_points decimal orders routes company_id db order_ids exclude)
        ≡ 0
      → Elem p db.points
      → p.company_id ≡ company_id
      → Elem p.order_id order_ids
      → not_of_route decimal orders routes exclude p ≡ true
      → IsActive db p.route_id
      → ⊥
  unfolding find_conflicting_route_points on_active_route
  free_of_conflicts company_id db order_ids exclude p h m own named other active =
      let fails = filter_empty _ _ db.points p h m in
      let on = found_active db p active in
      let member = Elem-contains p.order_id order_ids named in
      let meets : (p.company_id == company_id
            && (contains p.order_id order_ids
                && (not_of_route decimal orders routes exclude p
                    && on_active_route decimal orders routes db p)))
          ≡ true =
        rw own (rw (==_refl company_id) (rw member (rw other on))) in
      true≢false (sym meets ∙ fails)
    where
      true≢false : true ≡ false → ⊥
      true≢false h = cc

  pub of_other_route :
      (route_id : ℕ) (p : RoutePointData)
      → p.route_id ≢ route_id
      → not_of_route decimal orders routes (some route_id) p ≡ true
  of_other_route route_id p n = elim (Bool-cases (truthy (some route_id))) [
    | inl t ↦ rw t (rw (differs p.route_id route_id n) refl)
    | inr f ↦ rw f refl
  ]

  -- The points of one route are written anew, for orders that no other active route has.
  pub IsExclusive-rewritten :
      (company_id route_id : ℕ) (order_ids : List ℕ) (db db' : DbOf)
      → ((p : RoutePointData)
          → Elem p db'.points
          → p.company_id ≡ company_id
          → ((p.route_id ≡ route_id) × Elem p.order_id order_ids)
            ⊎ (Elem p db.points × (p.route_id ≢ route_id)))
      → ((k : ℕ) → k ≢ route_id → IsActive db' k → IsActive db k)
      → ((p : RoutePointData)
          → Elem p db.points
          → p.company_id ≡ company_id
          → p.route_id ≢ route_id
          → Elem p.order_id order_ids
          → IsActive db p.route_id
          → ⊥)
      → IsExclusive company_id db
      → IsExclusive company_id db'
  IsExclusive-rewritten company_id route_id order_ids db db' points active free inv p q mp mq cp cq
        same ap' aq =
      elim (points p mp cp) [
        | inl (rp, op) ↦ elim (points q mq cq) [
          | inl (rq, oq) ↦ rp ∙ sym rq
          | inr (old, other) ↦ absurd (
              free q old cq other (subst (λ o. Elem o order_ids) same op)
                (active q.route_id other aq))
        ]
        | inr (old, other) ↦ elim (points q mq cq) [
          | inl (rq, oq) ↦ absurd (
              free p old cp other (subst (λ o. Elem o order_ids) (sym same) oq)
                (active p.route_id other ap'))
          | inr (old', other') ↦
              inv p q old old' cp cq same (active p.route_id other ap')
                (active q.route_id other' aq)
        ]
      ]

  -- Only the routes are written, and none of them becomes active.
  pub IsExclusive-deactivated :
      (company_id : ℕ) (db db' : DbOf)
      → db'.points ≡ db.points
      → ((k : ℕ) → IsActive db' k → IsActive db k)
      → IsExclusive company_id db
      → IsExclusive company_id db'
  IsExclusive-deactivated company_id db db' points active inv p q mp mq cp cq same ap' aq =
      inv p q (subst (Elem p) points mp) (subst (Elem q) points mq) cp cq same
        (active p.route_id ap') (active q.route_id aq)
