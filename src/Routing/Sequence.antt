-- ===== src/Routing/Sequence.antt =====
-- The route points that backend/src/modules/routing/routing.service.ts stores for the answer of a
-- provider.
use logistics_center.Base.{
  ℕ, zero, suc, ◌+◌, ◌≡◌, refl, sym, ap, subst, ◌∙◌, inl, inr, Bool, true, not, some, List, [], ◌∷◌,
  ◌==◌, length, length-map, map, Elem, Distinct, Distinct-covers, Option-cases, Bool-cases, ==_iff,
  ok, bad_request, bind_returns, ok_injective, or_throw-some, throw_if, or_throw, arith,
}
use logistics_center.Routing.Provider.{RouteStop, RouteResult}
use logistics_center.Routing.Plan.{RouteOrder}
use logistics_center.Routing.Points.{
  RoutePointData, find_last, ordered_order_ids, point_data, point_rows,
  build_route_point_create_data,
}

find_last_sound :
    {A : Type 0} (test : A → Bool) (xs : List A) (a : A)
    → find_last test xs ≡ some a
    → Elem a xs × (test a ≡ true)
find_last_sound test [] a h = absurd (ground arith)
find_last_sound test (x ∷ xs) a h = elim (Option-cases (find_last test xs)) [
  | inr (b, found) ↦
      let same : find_last test xs ≡ some a = found ∙ rw found at h in
      let (m, t) = find_last_sound test xs a same in (inr m, t)
  | inl n ↦ elim (Bool-cases (test x)) [
    | inl t ↦ let same : x ≡ a = ground (arith, n, t) in (inl (sym same), ap test (sym same) ∙ t)
    | inr f ↦ absurd (ground (arith, n, f))
  ]
]

-- `first`, `first + 1`, and so on.
abbrev pub numbers_from : ℕ → ℕ → List ℕ
numbers_from first zero = []
numbers_from first (suc n) = first ∷ numbers_from (first + 1) n

module _ {Decimal : Type 0} (company_id route_id : ℕ) (orders : List (RouteOrder Decimal)) where
  -- The rows for the orders, in the order of the provider.
  pub record IsSequence (ids : List ℕ) (index : ℕ) (rows : List RoutePointData) : Type 0 where
    pub visited : map (λ r. r.order_id) rows ≡ ids
    pub numbered : map (λ r. r.sequence) rows ≡ numbers_from (index + 1) (length ids)
    pub owned :
        (r : RoutePointData) → Elem r rows → (r.company_id ≡ company_id) × (r.route_id ≡ route_id)
    pub known : (i : ℕ) → Elem i ids → Elem i (map (λ o. o.id) orders)

  Elem-map_id :
      (o : RouteOrder Decimal) (os : List (RouteOrder Decimal))
      → Elem o os
      → Elem o.id (map (λ x. x.id) os)
  Elem-map_id o [] m = absurd m
  Elem-map_id o (x ∷ xs) (inl e) = inl (ap (λ y. y.id) e)
  Elem-map_id o (x ∷ xs) (inr m) = inr (Elem-map_id o xs m)

  point_rows-IsSequence :
      (stops : List RouteStop) (ids : List ℕ) (index : ℕ) (rows : List RoutePointData)
      → point_rows company_id route_id orders stops index ids ≡ ok rows
      → IsSequence ids index rows
  unfolding point_rows
  point_rows-IsSequence stops [] index rows h =
      subst (IsSequence [] index) (ok_injective [] rows h) (record {
        visited = refl;
        numbered = refl;
        owned = λ r m. absurd m;
        known = λ i m. absurd m;
      })
  point_rows-IsSequence stops (order_id ∷ ids) index rows h =
      let (o, e1, h1) =
        bind_returns (or_throw (find_last (λ item. item.id == order_id) orders) bad_request) _ h in
      let (rest, e2, h2) =
        bind_returns (point_rows company_id route_id orders stops (index + 1) ids) _ h1 in
      let tail = point_rows-IsSequence stops ids (index + 1) rest e2 in
      let (has, named) =
        find_last_sound (λ item. item.id == order_id) orders o (or_throw-some _ bad_request o e1) in
      let same : o.id ≡ order_id = (==_iff o.id order_id).0 named in
      subst (IsSequence (order_id ∷ ids) index)
        (ok_injective (point_data company_id route_id orders stops index order_id o ∷ rest) rows h2)
        (record {
          visited =
              ap (λ i. i ∷ map (λ r. r.order_id) rest) same ∙ ap (λ is. order_id ∷ is) tail.visited;
          numbered = ap (λ ns. (index + 1) ∷ ns) tail.numbered;
          owned = λ r m. elim m [
            | inl e ↦ (ap (λ x. x.company_id) e, ap (λ x. x.route_id) e)
            | inr k ↦ tail.owned r k
          ];
          known = λ i m. elim m [
            | inl e ↦
                subst (λ j. Elem j (map (λ x. x.id) orders)) (same ∙ sym e)
                  (Elem-map_id o orders has)
            | inr k ↦ tail.known i k
          ];
        })

  -- The rows of a route visit the orders of the provider's answer in its order, numbered from one; they
  -- belong to the route, and each order is one of the plan. There are as many as the plan has orders.
  pub build_route_point_create_data-IsSequence :
      {N : Type 0} (route_result : RouteResult N) (rows : List RoutePointData)
      → build_route_point_create_data company_id route_id orders route_result ≡ ok rows
      → IsSequence (ordered_order_ids route_result.ordered_points) 0 rows
        × (length rows ≡ length orders)
  unfolding build_route_point_create_data
  build_route_point_create_data-IsSequence route_result rows h =
      let ids = ordered_order_ids route_result.ordered_points in
      let (_, complete, h1) =
        bind_returns (throw_if (not (length ids == length orders)) bad_request) _ h in
      let sequence = point_rows-IsSequence route_result.stops ids 0 rows h1 in
      let same : length ids ≡ length orders = ground (arith, complete) in
      (sequence, sym (length-map (λ r. r.order_id) rows) ∙ ap length sequence.visited ∙ same)

  -- Where the provider names no order twice, every order of the plan is visited.
  pub build_route_point_create_data_covers :
      {N : Type 0} (route_result : RouteResult N) (rows : List RoutePointData) (i : ℕ)
      → build_route_point_create_data company_id route_id orders route_result ≡ ok rows
      → Distinct (ordered_order_ids route_result.ordered_points)
      → Elem i (map (λ o. o.id) orders)
      → Elem i (map (λ r. r.order_id) rows)
  build_route_point_create_data_covers route_result rows i h d m =
      let ids = ordered_order_ids route_result.ordered_points in
      let (sequence, counted) = build_route_point_create_data-IsSequence route_result rows h in
      let as_many : length (map (λ o. o.id) orders) ≡ length ids =
        length-map (λ o. o.id) orders
        ∙ sym counted
        ∙ sym (length-map (λ r. r.order_id) rows)
        ∙ ap length sequence.visited in
      subst (Elem i) (sym sequence.visited)
        (Distinct-covers ids (map (λ o. o.id) orders) d sequence.known (omega (arith, as_many)) i m)
