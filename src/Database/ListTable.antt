-- ===== src/Database/ListTable.antt =====
-- A list of rows meets the laws of a table.
use logistics_center.Base.{
  suc, ◌≡◌, refl, Bool, true, false, ◌⊎◌, inl, inr, Option, none, some, List, [], ◌∷◌, Elem, find,
  filter, find_sound, find_complete, if◌then◌else◌, length, arith, Bool-cases, Option-cases, subst,
  sym, ap, ◌∙◌,
}
use logistics_center.Database.{Table}

module _ {Row : Type 0} where
  -- Every row that meets the condition is updated, and the first one is returned.
  abbrev pub update_rows : (Row → Bool) → (Row → Row) → List Row → List Row
  update_rows p f [] = []
  update_rows p f (r ∷ rs) = (if p r then f r else r) ∷ update_rows p f rs

  abbrev pub update_found : Option Row → (Row → Row) → List Row → Option (Row × List Row)
  update_found none f rows = none
  update_found (some r) f rows = some (f r, rows)

  abbrev pub update_where : (Row → Bool) → (Row → Row) → List Row → Option (Row × List Row)
  update_where p f s = update_found (find p s) f (update_rows p f s)

  pub filter_sound :
      (p : Row → Bool) (s : List Row) (r : Row) → Elem r (filter p s) → Elem r s × (p r ≡ true)
  filter_sound p [] r h = absurd h
  filter_sound p (x ∷ xs) r h = grind (arith, filter_sound p xs r)

  pub filter_complete :
      (p : Row → Bool) (s : List Row) (r : Row) → Elem r s → p r ≡ true → Elem r (filter p s)
  filter_complete p [] r h e = absurd h
  filter_complete p (x ∷ xs) r h e = grind (arith, filter_complete p xs r)

  Elem-update_rows :
      (p : Row → Bool) (f : Row → Row) (s : List Row) (r : Row)
      → Elem r (update_rows p f s)
      → ((r0 : Row) × Elem r0 s × (p r0 ≡ true) × (r ≡ f r0)) ⊎ (Elem r s × (p r ≡ false))
  Elem-update_rows p f [] r m = absurd m
  Elem-update_rows p f (x ∷ xs) r (inl e) = elim (Bool-cases (p x)) [
    | inl t ↦ inl (x, inl refl, t, ground (arith, e, t))
    | inr t ↦ let same : r ≡ x = ground (arith, e, t) in inr (inl same, ap p same ∙ t)
  ]
  Elem-update_rows p f (x ∷ xs) r (inr m) = elim (Elem-update_rows p f xs r m) [
    | inl (r0, has, meets, e) ↦ inl (r0, inr has, meets, e)
    | inr (has, fails) ↦ inr (inr has, fails)
  ]

  update_rows-Elem :
      (p : Row → Bool) (f : Row → Row) (s : List Row) (r : Row)
      → Elem r s
      → p r ≡ false
      → Elem r (update_rows p f s)
  update_rows-Elem p f [] r m n = absurd m
  update_rows-Elem p f (x ∷ xs) r (inl e) n =
      let fails : p x ≡ false = ap p (sym e) ∙ n in inl (e ∙ ground (arith, fails))
  update_rows-Elem p f (x ∷ xs) r (inr m) n = inr (update_rows-Elem p f xs r m n)

  update_found_lem :
      (o : Option Row) (f : Row → Row) (rows : List Row) (q : Row) (s' : List Row)
      → update_found o f rows ≡ some (q, s')
      → (r : Row) × (o ≡ some r) × (q ≡ f r) × (s' ≡ rows)
  update_found_lem none f rows q s' h = absurd (ground arith)
  update_found_lem (some r) f rows q s' h = (r, refl, ground arith, ground arith)

  pub update_where_row :
      (p : Row → Bool) (f : Row → Row) (s : List Row) (q : Row) (s' : List Row)
      → update_where p f s ≡ some (q, s')
      → (r : Row) × Elem r s × (p r ≡ true) × (q ≡ f r)
  update_where_row p f s q s' h =
      let (r, found, e, same) = update_found_lem (find p s) f (update_rows p f s) q s' h in
      let (has, meets) = find_sound p s r found in (r, has, meets, e)

  pub update_where_has :
      (p : Row → Bool) (f : Row → Row) (s : List Row) (q : Row) (s' : List Row) (r : Row)
      → update_where p f s ≡ some (q, s')
      → Elem r s'
      → ((r0 : Row) × Elem r0 s × (p r0 ≡ true) × (r ≡ f r0)) ⊎ (Elem r s × (p r ≡ false))
  update_where_has p f s q s' r h m =
      let (r0, found, e, same) = update_found_lem (find p s) f (update_rows p f s) q s' h in
      Elem-update_rows p f s r (subst (Elem r) same m)

  found_in_update_rows :
      (p : Row → Bool) (f : Row → Row) (s : List Row) (r : Row)
      → Elem r s
      → p r ≡ true
      → Elem (f r) (update_rows p f s)
  found_in_update_rows p f [] r m e = absurd m
  found_in_update_rows p f (x ∷ xs) r (inl same) e =
      let meets : p x ≡ true = ap p (sym same) ∙ e in inl (ap f same ∙ ground (arith, meets))
  found_in_update_rows p f (x ∷ xs) r (inr m) e = inr (found_in_update_rows p f xs r m e)

  pub update_where_in :
      (p : Row → Bool) (f : Row → Row) (s : List Row) (q : Row) (s' : List Row)
      → update_where p f s ≡ some (q, s')
      → Elem q s'
  update_where_in p f s q s' h =
      let (r, found, e, same) = update_found_lem (find p s) f (update_rows p f s) q s' h in
      let (has, meets) = find_sound p s r found in
      subst (Elem q) (sym same)
        (subst (λ x. Elem x (update_rows p f s)) (sym e) (found_in_update_rows p f s r has meets))

  pub update_where_kept :
      (p : Row → Bool) (f : Row → Row) (s : List Row) (q : Row) (s' : List Row) (r : Row)
      → update_where p f s ≡ some (q, s')
      → Elem r s
      → p r ≡ false
      → Elem r s'
  update_where_kept p f s q s' r h m n =
      let (r0, found, e, same) = update_found_lem (find p s) f (update_rows p f s) q s' h in
      subst (Elem r) (sym same) (update_rows-Elem p f s r m n)

  pub update_where-some :
      (p : Row → Bool) (f : Row → Row) (s : List Row) (r : Row)
      → Elem r s
      → p r ≡ true
      → (out : Row × List Row) × (update_where p f s ≡ some out)
  update_where-some p f s r m e = elim (Option-cases (find p s)) [
    | inl n ↦ let no = find_complete p s r n m in absurd (ground (arith, e))
    | inr (x, found) ↦
        ((f x, update_rows p f s), ap (λ o. update_found o f (update_rows p f s)) found)
  ]

  -- The n-th row that is created has the identifier n.
  unfoldable pub list_table : Table Row
  list_table = record {
    State = List Row;
    Has = λ s r. Elem r s;
    find_first = find;
    find_many = filter;
    create = λ f s. (f (suc (length s)), f (suc (length s)) ∷ s);
    update = update_where;
    find_first_some = λ p s r h. find_sound p s r h;
    find_first_none = λ p s r h m. find_complete p s r h m;
    find_many_sound = filter_sound;
    find_many_complete = filter_complete;
    create_row = λ f s. (suc (length s), refl);
    create_has = λ f s r m. m;
    create_in = λ f s. inl refl;
    create_kept = λ f s r m. inr m;
    update_row = update_where_row;
    update_has = update_where_has;
    update_in = update_where_in;
    update_kept = update_where_kept;
    update_some = update_where-some;
  }
