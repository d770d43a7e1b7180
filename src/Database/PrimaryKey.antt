-- ===== src/Database/PrimaryKey.antt =====
-- A column of identifiers as the primary key of a table, which backend/prisma/schema.prisma declares
-- for each model.
use logistics_center.Base.{
  ℕ, suc, ◌+◌, ◌≤◌, ◌≡◌, ◌≢◌, refl, sym, ap, ◌∙◌, ◌⊎◌, inl, inr, Bool, true, false, some, List, [],
  ◌∷◌, Elem, arith, Bool-cases,
}
use logistics_center.Database.{Table}
use logistics_center.Database.ListTable.{list_table}

module _ {Row : Type 0} (table : Table Row) (id_of : Row → ℕ) where
  open table use {State, Has, create, update}

  -- A row that is created gets an identifier that no row has.
  abbrev pub IsPrimaryKey : Type 0
  IsPrimaryKey =
      (f : ℕ → Row) (s : State) (r : Row)
      → ((i : ℕ) → id_of (f i) ≡ i)
      → Has s r
      → id_of r ≢ id_of (create f s).0

  abbrev pub AreKeyed : State → Type 0
  AreKeyed s = (x y : Row) → Has s x → Has s y → id_of x ≡ id_of y → x ≡ y

  abbrev pub Exists : State → ℕ → Type 0
  Exists s id = (r : Row) × Has s r × (id_of r ≡ id)

  pub create-AreKeyed :
      (f : ℕ → Row) (s : State)
      → IsPrimaryKey
      → ((i : ℕ) → id_of (f i) ≡ i)
      → AreKeyed s
      → AreKeyed (create f s).1
  create-AreKeyed f s fresh named key x y hx hy same = elim (table.create_has f s x hx) [
    | inl e ↦ elim (table.create_has f s y hy) [
      | inl e' ↦ e ∙ sym e'
      | inr old ↦ absurd (fresh f s y named old (sym same ∙ ap id_of e))
    ]
    | inr old ↦ elim (table.create_has f s y hy) [
      | inl e' ↦ absurd (fresh f s x named old (same ∙ ap id_of e'))
      | inr old' ↦ key x y old old' same
    ]
  ]

  pub create-Exists : (f : ℕ → Row) (s : State) (id : ℕ) → Exists s id → Exists (create f s).1 id
  create-Exists f s id (r, has, e) = (r, table.create_kept f s r has, e)

  -- An update under a condition on the identifier that keeps the identifier.
  module _ (p : Row → Bool) (f : Row → Row) (id : ℕ) (s s' : State) (q : Row)
      (names : (r : Row) → p r ≡ true → id_of r ≡ id) (keeps : (r : Row) → id_of (f r) ≡ id_of r)
      (written : update p f s ≡ some (q, s')) where
    update_origin :
        (x : Row)
        → Has s' x
        → (x0 : Row) × Has s x0
          × (id_of x0 ≡ id_of x)
          × (((p x0 ≡ true) × (x ≡ f x0)) ⊎ ((p x0 ≡ false) × (x ≡ x0)))
    update_origin x m = elim (table.update_has p f s q s' x written m) [
      | inl (x0, has, meets, e) ↦ (x0, has, sym (keeps x0) ∙ ap id_of (sym e), inl (meets, e))
      | inr (has, fails) ↦ (x, has, refl, inr (fails, refl))
    ]

    pub update-AreKeyed : AreKeyed s → AreKeyed s'
    update-AreKeyed key x y hx hy same =
        let (x0, has_x, ex, wx) = update_origin x hx in
        let (y0, has_y, ey, wy) = update_origin y hy in
        let one : x0 ≡ y0 = key x0 y0 has_x has_y (ex ∙ same ∙ sym ey) in
        elim wx [
          | inl (meets, e) ↦ elim wy [
            | inl (meets', e') ↦ e ∙ ap f one ∙ sym e'
            | inr (fails, e') ↦ absurd (true≢false (sym meets ∙ ap p one ∙ fails))
          ]
          | inr (fails, e) ↦ elim wy [
            | inl (meets', e') ↦ absurd (true≢false (sym meets' ∙ ap p (sym one) ∙ fails))
            | inr (fails', e') ↦ e ∙ one ∙ sym e'
          ]
        ]
      where
        true≢false : true ≡ false → ⊥
        true≢false h = cc

    pub update-Exists : (k : ℕ) → Exists s k → Exists s' k
    update-Exists k (r, has, e) = elim (Bool-cases (p r)) [
      | inl meets ↦
          let (r0, has0, meets0, e0) = table.update_row p f s q s' written in
          (
            q,
            table.update_in p f s q s' written,
            ap id_of e0 ∙ keeps r0 ∙ names r0 meets0 ∙ sym (names r meets) ∙ e,
          )
      | inr fails ↦ (r, table.update_kept p f s q s' r written has fails, e)
    ]

module _ {Row : Type 0} (id_of : Row → ℕ) where
  total_ids : List Row → ℕ
  total_ids [] = 0
  total_ids (r ∷ rs) = id_of r + total_ids rs

  total_ids_bound : (rs : List Row) (r : Row) → Elem r rs → id_of r ≤ total_ids rs
  unfolding total_ids
  total_ids_bound [] r m = absurd m
  total_ids_bound (x ∷ xs) r (inl e) = let same = ap id_of e in omega arith
  total_ids_bound (x ∷ xs) r (inr m) = omega (arith, total_ids_bound xs r m)

  -- The list of rows, where a row that is created gets a greater identifier than all others.
  unfoldable pub keyed_table : Table Row
  unfolding list_table total_ids
  keyed_table = record (list_table {Row = Row}) {
    create = λ f s. (f (suc (total_ids s)), f (suc (total_ids s)) ∷ s);
    create_row = λ f s. (suc (total_ids s), refl);
    create_has = λ f s r m. m;
    create_in = λ f s. inl refl;
    create_kept = λ f s r m. inr m;
  }

  pub keyed_table-IsPrimaryKey : IsPrimaryKey keyed_table id_of
  unfolding keyed_table list_table
  keyed_table-IsPrimaryKey f s r named has same =
      let bound = total_ids_bound s r has in
      let e = named (suc (total_ids s)) in omega (arith, bound, same, e)
