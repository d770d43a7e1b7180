-- ===== src/Orders/Unique.antt =====
-- External identifiers and order numbers: within a company, backend/src/modules/orders/orders.service.ts
-- gives none of them to two orders.
use logistics_center.Base.{
  ℕ, ◌≡◌, refl, sym, ap, subst, ◌∙◌, ◌⊎◌, inl, inr, Bool, true, false, ◌&&◌, Option, none, some,
  ◌==◌, ◌==?◌, truthy, is_some, Option-cases, ==_refl, ok, conflict, throw_if, arith,
}
use logistics_center.Database.{Table}
use logistics_center.Orders.Columns.{Order}
use logistics_center.Orders.Service.{OrdersDb, not_excluded}

==?_refl : (a : Option ℕ) → (a ==? a) ≡ true
==?_refl none = refl
==?_refl (some a) = ==_refl a

module _ {Num Decimal : Type 0} (decimal : Num → Decimal) (orders : Table (Order Num Decimal)) where
  open orders use {State, Has, find_first, update}

  abbrev pub Column : Type 0
  Column = Order Num Decimal → Option ℕ

  -- Two orders of a company with the same value in the column, which is not empty, are one.
  abbrev pub AreUnique : (Order Num Decimal → Option ℕ) → State → Type 0
  AreUnique column rows =
      (x y : Order Num Decimal)
      → Has rows x
      → Has rows y
      → x.company_id ≡ y.company_id
      → column x ≡ column y
      → truthy (column x) ≡ true
      → x.id ≡ y.id

  pub record IsUnique (db : OrdersDb decimal orders) : Type 0 where
    pub external_ids : AreUnique (λ o. o.external_id) db.rows
    pub order_numbers : AreUnique (λ o. o.order_number) db.rows

  -- One row is added, or replaces others.
  pub unique_with :
      (column : Column) (rows rows' : State) (n : Order Num Decimal)
      → AreUnique column rows
      → ((y : Order Num Decimal) → Has rows' y → (y ≡ n) ⊎ Has rows y)
      → ((y : Order Num Decimal)
          → Has rows y
          → y.company_id ≡ n.company_id
          → column y ≡ column n
          → truthy (column y) ≡ true
          → y.id ≡ n.id)
      → AreUnique column rows'
  unique_with column rows rows' n inv split alone x y hx hy c e t = elim (split x hx) [
    | inl ex ↦ elim (split y hy) [
      | inl ey ↦ ap (λ o. o.id) (ex ∙ sym ey)
      | inr oy ↦ sym (
          alone y oy (sym c ∙ ap (λ o. o.company_id) ex) (sym e ∙ ap column ex)
            (subst (λ v. truthy v ≡ true) e t)
          ∙ ap (λ o. o.id) (sym ex))
    ]
    | inr ox ↦ elim (split y hy) [
      | inl ey ↦
          alone x ox (c ∙ ap (λ o. o.company_id) ey) (e ∙ ap column ey) t ∙ ap (λ o. o.id) (sym ey)
      | inr oy ↦ inv x y ox oy c e t
    ]
  ]

  abbrev pub has_value : Column → ℕ → Option ℕ → Option ℕ → Order Num Decimal → Bool
  has_value column company_id value exclude o =
      o.company_id == company_id && (column o ==? value && not_excluded decimal orders exclude o)

  -- The check passes only if each row with the value is excluded.
  pub check_passed :
      (column : Column) (rows : State) (company_id : ℕ) (value exclude : Option ℕ)
      → throw_if
          (truthy value && is_some (find_first (has_value column company_id value exclude) rows))
          conflict
        ≡ ok tt
      → (y : Order Num Decimal) → Has rows y
      → y.company_id ≡ company_id
      → column y ≡ value
      → truthy (column y) ≡ true
      → not_excluded decimal orders exclude y ≡ false
  check_passed column rows company_id value exclude passed y has c e t =
      elim (Option-cases (find_first (has_value column company_id value exclude) rows)) [
        | inl n ↦
            let fails =
              orders.find_first_none (has_value column company_id value exclude) rows y n has in
            let same : (y.company_id == company_id) ≡ true =
              ap (λ i. i == company_id) c ∙ ==_refl company_id in
            let held : (column y ==? value) ≡ true = ap (λ v. v ==? value) e ∙ ==?_refl value in
            ground (arith, fails, same, held)
        | inr (o, found) ↦
            let t' : truthy value ≡ true = ap truthy (sym e) ∙ t in
            absurd (ground (arith, passed, found, t'))
      ]
