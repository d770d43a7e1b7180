-- ===== src/Tenancy/Confinement.antt =====
-- What backend/src/prisma/tenant-prisma.helper.ts makes of the arguments of a call: nothing outside
-- the company of the tenant context is read, created or updated.
use logistics_center.Base.{
  ◌≡◌, inl, inr, false, Option, none, some, ok, Bool-cases, Option-cases, bind_returns, arith, sym,
  ◌∙◌, subst,
}
use logistics_center.Base.Text.{Text, text_eq}
use logistics_center.Values.{
  Value, Items, Fields, undefined, null, bool, num, str, date, arr, obj, nil, cons, end, get, put,
  plain_object,
}
use logistics_center.Values.Laws.{get-put_self, get-put_other}
use logistics_center.Tenancy.Isolation.{
  company_key, names_foreign_company, inject_tenant_into_object, inject_tenant_into_create_data,
  inject_tenant_into_entries, validate_tenant_update_data, inject_key, validate_key,
}

module _ {N : Type 0} where
  -- Every object that stands in the data, at any depth of lists, belongs to the company.
  abbrev mutual
    pub Owned : Value N → Text → Type 0
    Owned undefined company = Unit
    Owned null company = Unit
    Owned (bool b) company = Unit
    Owned (num n) company = Unit
    Owned (str s) company = Unit
    Owned (date t) company = ⊥
    Owned (arr xs) company = OwnedItems xs company
    Owned (obj fs) company = get company_key fs ≡ str company

    pub OwnedItems : Items N → Text → Type 0
    OwnedItems nil company = Unit
    OwnedItems (cons x xs) company = Owned x company × OwnedItems xs company

  -- The data of an update, if it is an object, names no other company.
  abbrev pub Unforeign : Option (Fields N) → Text → Type 0
  Unforeign none company = Unit
  Unforeign (some fs) company = names_foreign_company fs company ≡ false

  object-Owned :
      (fs : Fields N) (company : Text) (v : Value N)
      → inject_tenant_into_object fs company ≡ ok v
      → Owned v company
  unfolding inject_tenant_into_object
  object-Owned fs company v h = elim (Bool-cases (names_foreign_company fs company)) [
    | inl e ↦ absurd (ground (arith, e))
    | inr e ↦
        let same : obj (put company_key (str company) fs) ≡ v = ground (arith, e) in
        subst (λ x. Owned x company) same (get-put_self company_key (str company) fs)
  ]

  mutual
    unfolding inject_tenant_into_create_data

    create_data-Owned :
        (d : Value N) (company : Text) (v : Value N)
        → inject_tenant_into_create_data d company ≡ ok v
        → Owned v company
    create_data-Owned undefined company v h =
        subst (λ x. Owned x company) (let e : undefined ≡ v = cc in e) tt
    create_data-Owned null company v h =
        subst (λ x. Owned x company) (let e : null ≡ v = cc in e) tt
    create_data-Owned (bool b) company v h =
        subst (λ x. Owned x company) (let e : bool b ≡ v = cc in e) tt
    create_data-Owned (num n) company v h =
        subst (λ x. Owned x company) (let e : num n ≡ v = cc in e) tt
    create_data-Owned (str s) company v h =
        subst (λ x. Owned x company) (let e : str s ≡ v = cc in e) tt
    create_data-Owned (date t) company v h = object-Owned end company v h
    create_data-Owned (arr xs) company v h =
        let (ys, e, f) = bind_returns (inject_tenant_into_entries xs company) _ h in
        let same : arr ys ≡ v = cc in
        subst (λ x. Owned x company) same (entries-Owned xs company ys e)
    create_data-Owned (obj fs) company v h = object-Owned fs company v h

    entries-Owned :
        (xs : Items N) (company : Text) (ys : Items N)
        → inject_tenant_into_entries xs company ≡ ok ys
        → OwnedItems ys company
    entries-Owned nil company ys h =
        subst (λ x. OwnedItems x company) (let e : nil ≡ ys = cc in e) tt
    entries-Owned (cons x xs) company ys h =
        let (y, e, f) = bind_returns (inject_tenant_into_create_data x company) _ h in
        let (zs, g, k) = bind_returns (inject_tenant_into_entries xs company) _ f in
        let same : cons y zs ≡ ys = cc in
        subst (λ x. OwnedItems x company) same
          (create_data-Owned x company y e, entries-Owned xs company zs g)

  -- A step on one key of the arguments leaves the others.
  abbrev pub Keeps : Text → Fields N → Fields N → Type 0
  Keeps key args args' = (j : Text) → text_eq key j ≡ false → get j args' ≡ get j args

  pub inject_key-Owned :
      (key company : Text) (args args' : Fields N)
      → inject_key key company args ≡ ok args'
      → Owned (get key args') company × Keeps key args args'
  unfolding inject_key
  inject_key-Owned key company args args' h =
      let (rows, e, f) = bind_returns (inject_tenant_into_create_data (get key args) company) _ h in
      let same : put key rows args ≡ args' = cc in
      subst (λ a. Owned (get key a) company × Keeps key args a) same
        (
          subst (λ x. Owned x company) (sym (get-put_self key rows args))
              (create_data-Owned (get key args) company rows e),
          λ j other. get-put_other key j rows args other,
        )

  -- Data that passes is handed on as it is, and names no other company.
  validate_data-Unforeign :
      (d : Value N) (company : Text) (v : Value N)
      → validate_tenant_update_data d company ≡ ok v
      → (v ≡ d) × Unforeign (plain_object d) company
  unfolding validate_tenant_update_data
  validate_data-Unforeign d company v h = elim (Option-cases (plain_object d)) [
    | inl e ↦ (ground (arith, e), rw e tt)
    | inr (fs, e) ↦ elim (Bool-cases (names_foreign_company fs company)) [
      | inl g ↦ absurd (ground (arith, e, g))
      | inr g ↦ (ground (arith, e, g), rw e g)
    ]
  ]

  pub validate_key-Unforeign :
      (key company : Text) (args args' : Fields N)
      → validate_key key company args ≡ ok args'
      → Unforeign (plain_object (get key args')) company
        × (get key args' ≡ get key args)
        × Keeps key args args'
  unfolding validate_key
  validate_key-Unforeign key company args args' h =
      let (v, e, f) = bind_returns (validate_tenant_update_data (get key args) company) _ h in
      let (kept, unforeign) = validate_data-Unforeign (get key args) company v e in
      let same : put key v args ≡ args' = cc in
      let read : get key (put key v args) ≡ get key args = get-put_self key v args ∙ kept in
      subst
        (λ a.
          Unforeign (plain_object (get key a)) company
          × (get key a ≡ get key args)
          × Keeps key args a)
        same
        (
          subst (λ x. Unforeign (plain_object x) company) (sym read) unforeign,
          read,
          λ j other. get-put_other key j v args other,
        )
