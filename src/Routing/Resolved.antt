-- ===== src/Routing/Resolved.antt =====
-- What holds of a plan that `resolveRoutePlan` of backend/src/modules/routing/routing.service.ts returns.
use logistics_center.Base.{
  ℕ, ◌≤◌, ◌≡◌, refl, sym, ap, subst, ◌∙◌, inl, inr, Bool, true, false, not, Option, none, some,
  List, [], ◌∷◌, ◌++◌, ◌==◌, map, length, length-filter-le, filter, find, find_sound, Elem,
  Distinct, Option-cases, Bool-cases, Result-cases, ==_iff, When, if◌then◌else◌, ok, err, not_found,
  bind_returns, ok_injective, or_throw-some, or_throw, arith, ◌>>=◌,
}
use logistics_center.Routing.StateMachine.{is_terminal_order_status}
use logistics_center.Routing.Provider.{RoutePoint, RouteOptions}
use logistics_center.Routing.Plan.{
  RouteOrder, RouteCourier, ResolvedRoutePlan, PlanSources, unique_ids, any_terminal,
  ordered_orders, starts_with_courier, has_coordinates, locate, resolve_order_coordinates,
  courier_points, order_points, decimal_to_required_number,
}
use logistics_center.Routing.Points.{ordered_order_ids}

filter_full :
    (p : ℕ → Bool) (ys : List ℕ)
    → length (filter p ys) ≡ length ys
    → (filter p ys ≡ ys) × ((y : ℕ) → Elem y ys → p y ≡ true)
filter_full p [] h = (refl, λ y m. absurd m)
filter_full p (x ∷ xs) h = elim (Bool-cases (p x)) [
  | inl t ↦
      let shorter : length (filter p xs) ≡ length xs = ground (arith, t) in
      let (same, holds) = filter_full p xs shorter in
      (rw t (ap (λ zs. x ∷ zs) same), λ y m. elim m [ inl e ↦ ap p e ∙ t | inr k ↦ holds y k ])
  | inr f ↦ absurd (ground (arith, f, length-filter-le p xs))
]

length-unique_ids-le : (xs : List ℕ) → length (unique_ids xs) ≤ length xs
unfolding unique_ids
length-unique_ids-le [] = omega arith
length-unique_ids-le (x ∷ xs) =
    omega (arith, length-unique_ids-le xs, length-filter-le (λ y. not (y == x)) (unique_ids xs))

-- The set of the identifiers is as large as the list only if none of them is repeated.
pub unique_ids-Distinct :
    (xs : List ℕ) → length (unique_ids xs) ≡ length xs → (unique_ids xs ≡ xs) × Distinct xs
unfolding unique_ids
unique_ids-Distinct [] h = (refl, tt)
unique_ids-Distinct (x ∷ xs) h =
    let others : ℕ → Bool = λ y. not (y == x) in
    let le = length-unique_ids-le xs in
    let le' = length-filter-le others (unique_ids xs) in
    let (same, d) = unique_ids-Distinct xs (omega (arith, h, le, le')) in
    let (kept, differ) = filter_full others (unique_ids xs) (omega (arith, h, le, le')) in
    (
      ap (λ ys. x ∷ ys) (kept ∙ same),
      (
        λ m.
            let other : not (x == x) ≡ true = differ x (subst (Elem x) (sym same) m) in
            absurd (ground (arith, other)),
        d,
      ),
    )

module _ {Decimal : Type 0} where
  abbrev pub ids_of : List (RouteOrder Decimal) → List ℕ
  ids_of os = map (λ o. o.id) os

  pub ids_of-ordered_orders :
      (orders : List (RouteOrder Decimal)) (ids : List ℕ) (found : List (RouteOrder Decimal))
      → ordered_orders orders ids ≡ ok found
      → ids_of found ≡ ids
  unfolding ordered_orders
  ids_of-ordered_orders orders [] found h = ap ids_of (sym (ok_injective [] found h))
  ids_of-ordered_orders orders (i ∷ ids) found h =
      let (o, e1, h1) =
        bind_returns (or_throw (find (λ item. item.id == i) orders) not_found) _ h in
      let (rest, e2, h2) = bind_returns (ordered_orders orders ids) _ h1 in
      let (has, named) =
        find_sound (λ item. item.id == i) orders o (or_throw-some _ not_found o e1) in
      ap ids_of (sym (ok_injective (o ∷ rest) found h2))
      ∙ ap (λ j. j ∷ ids_of rest) ((==_iff o.id i).0 named)
      ∙ ap (λ js. i ∷ js) (ids_of-ordered_orders orders ids rest e2)

  -- Each order stands in the list that is searched.
  pub ordered_orders-Elem :
      (orders : List (RouteOrder Decimal)) (ids : List ℕ) (found : List (RouteOrder Decimal))
      (o : RouteOrder Decimal)
      → ordered_orders orders ids ≡ ok found
      → Elem o found
      → Elem o orders
  unfolding ordered_orders
  ordered_orders-Elem orders [] found o h m =
      absurd (subst (Elem o) (sym (ok_injective [] found h)) m)
  ordered_orders-Elem orders (i ∷ ids) found o h m =
      let (x, e1, h1) =
        bind_returns (or_throw (find (λ item. item.id == i) orders) not_found) _ h in
      let (rest, e2, h2) = bind_returns (ordered_orders orders ids) _ h1 in
      let (has, _) = find_sound (λ item. item.id == i) orders x (or_throw-some _ not_found x e1) in
      elim (subst (Elem o) (sym (ok_injective (x ∷ rest) found h2)) m) [
        | inl e ↦ subst (λ y. Elem y orders) (sym e) has
        | inr k ↦ ordered_orders-Elem orders ids rest o e2 k
      ]

  pub none_terminal :
      (os : List (RouteOrder Decimal)) (o : RouteOrder Decimal)
      → any_terminal os ≡ false
      → Elem o os
      → is_terminal_order_status o.status ≡ false
  none_terminal [] o h m = absurd m
  none_terminal (x ∷ xs) o h m = elim (Bool-cases (is_terminal_order_status x.status)) [
    | inl t ↦ absurd (ground (arith, t))
    | inr f ↦ elim m [
      | inl e ↦ ap (λ y. is_terminal_order_status y.status) e ∙ f
      | inr k ↦ none_terminal xs o (ground (arith, f)) k
    ]
  ]

module _ {N Decimal : Type 0} (sources : PlanSources N Decimal) where
  -- The same orders with the same statuses, all with coordinates.
  pub record IsLocated (os resolved : List (RouteOrder Decimal)) : Type 0 where
    pub same_ids : ids_of resolved ≡ ids_of os
    pub same_terminal : any_terminal resolved ≡ any_terminal os
    pub located : (o : RouteOrder Decimal) → Elem o resolved → has_coordinates sources o ≡ true
    pub sourced :
        (o : RouteOrder Decimal)
        → Elem o resolved
        → (x : RouteOrder Decimal) × Elem x os × (o.id ≡ x.id) × (o.status ≡ x.status)

  IsLocated-cons :
      (o o' : RouteOrder Decimal) (os resolved : List (RouteOrder Decimal))
      → o'.id ≡ o.id
      → o'.status ≡ o.status
      → has_coordinates sources o' ≡ true
      → IsLocated os resolved
      → IsLocated (o ∷ os) (o' ∷ resolved)
  IsLocated-cons o o' os resolved e f c h = record {
    same_ids = ap (λ i. i ∷ ids_of resolved) e ∙ ap (λ is. o.id ∷ is) h.same_ids;
    same_terminal =
        ap (λ s. if is_terminal_order_status s then true else any_terminal resolved) f
        ∙ ap (λ b. if is_terminal_order_status o.status then true else b) h.same_terminal;
    located =
        λ x m. elim m [ inl same ↦ ap (has_coordinates sources) same ∙ c | inr k ↦ h.located x k ];
    sourced = λ x m. elim m [
      | inl same ↦ (o, inl refl, ap (λ y. y.id) same ∙ e, ap (λ y. y.status) same ∙ f)
      | inr k ↦ let (y, among, i, s) = h.sourced x k in (y, inr among, i, s)
    ];
  }

  pub resolve_order_coordinates-IsLocated :
      (os resolved : List (RouteOrder Decimal))
      → (resolve_order_coordinates sources os).1 ≡ ok resolved
      → IsLocated os resolved
  unfolding resolve_order_coordinates
  resolve_order_coordinates-IsLocated [] resolved h =
      subst (IsLocated []) (ok_injective [] resolved h) (record {
        same_ids = refl;
        same_terminal = refl;
        located = λ o m. absurd m;
        sourced = λ o m. absurd m;
      })
  resolve_order_coordinates-IsLocated (o ∷ os) resolved h =
      elim (Bool-cases (has_coordinates sources o)) [
        | inl t ↦
            let found : ((resolve_order_coordinates sources os).1 >>= λ r. ok (o ∷ r))
                ≡ ok resolved =
              rw t at h in
            let (r, e, f) = bind_returns (resolve_order_coordinates sources os).1 _ found in
            subst (IsLocated (o ∷ os)) (ok_injective (o ∷ r) resolved f)
              (IsLocated-cons o o os r refl refl t (resolve_order_coordinates-IsLocated os r e))
        | inr n ↦ elim (Result-cases (sources.geocode o.delivery_address)) [
          | inl (thrown, failed) ↦
              let stopped : err thrown ≡ ok resolved = rw (n, failed) at h in cc
          | inr (coordinates, known) ↦
              let o' = locate sources o coordinates in
              let found : ((resolve_order_coordinates sources os).1 >>= λ r. ok (o' ∷ r))
                  ≡ ok resolved =
                rw (n, known) at h in
              let (r, e, f) = bind_returns (resolve_order_coordinates sources os).1 _ found in
              subst (IsLocated (o ∷ os)) (ok_injective (o' ∷ r) resolved f) (
                IsLocated-cons o o' os r refl refl refl
                  (resolve_order_coordinates-IsLocated os r e))
        ]
      ]

  pub ordered-order_points :
      (os : List (RouteOrder Decimal)) (points : List (RoutePoint N))
      → order_points sources os ≡ ok points
      → ordered_order_ids points ≡ ids_of os
  unfolding order_points ordered_order_ids
  ordered-order_points [] points h = ap ordered_order_ids (sym (ok_injective [] points h))
  ordered-order_points (o ∷ os) points h =
      let (latitude, e1, h1) =
        bind_returns (decimal_to_required_number sources o.delivery_latitude) _ h in
      let (longitude, e2, h2) =
        bind_returns (decimal_to_required_number sources o.delivery_longitude) _ h1 in
      let (rest, e3, h3) = bind_returns (order_points sources os) _ h2 in
      sym (ap ordered_order_ids (ok_injective _ points h3))
      ∙ ap (λ is. o.id ∷ is) (ordered-order_points os rest e3)

  pub ordered-courier_points :
      (c : Option (RouteCourier Decimal)) (points : List (RoutePoint N))
      → ordered_order_ids (courier_points sources c ++ points) ≡ ordered_order_ids points
  unfolding ordered_order_ids
  ordered-courier_points none points = refl
  ordered-courier_points (some c) points = elim (Option-cases c.latitude) [
    | inl n ↦ rw n refl
    | inr (y, f) ↦ elim (Option-cases c.longitude) [
      | inl n ↦ rw (f, n) refl
      | inr (z, g) ↦ rw (f, g) refl
    ]
  ]

  -- What is promised of a plan for these orders.
  pub record IsResolved (order_ids : List ℕ) (exclude : Option ℕ) (options : RouteOptions)
      (plan : ResolvedRoutePlan N Decimal) : Type 0 where
    pub planned : ids_of plan.orders ≡ order_ids
    pub distinct : Distinct order_ids
    pub open_orders :
        (o : RouteOrder Decimal) → Elem o plan.orders → is_terminal_order_status o.status ≡ false
    pub located : (o : RouteOrder Decimal) → Elem o plan.orders → has_coordinates sources o ≡ true
    pub sourced :
        (o : RouteOrder Decimal)
        → Elem o plan.orders
        → (x : RouteOrder Decimal) × Elem x (sources.find_orders order_ids)
          × (o.id ≡ x.id)
          × (o.status ≡ x.status)
    pub free : length (sources.find_conflicting_route_points order_ids exclude) ≡ 0
    pub visited : ordered_order_ids plan.provider_points ≡ order_ids
    pub enough : 2 ≤ length plan.provider_points
    pub start : When options.return_to_start (starts_with_courier plan.provider_points ≡ true)
