-- ===== src/Database/Keyed.antt =====
-- A row that a service has found and then updates under the same condition, which is on a key.
use logistics_center.Base.{◌≡◌, ap, ◌∙◌, Bool, true, false, ◌⊎◌, inl, inr, some}
use logistics_center.Database.{Table}

module _ {Row : Type 0} (table : Table Row) where
  open table use {State, Has, find_first, update}

  -- At most one row meets the condition.
  abbrev pub IsKey : (Row → Bool) → State → Type 0
  IsKey p s = (x y : Row) → Has s x → Has s y → p x ≡ true → p y ≡ true → x ≡ y

  pub update_row_of :
      (p : Row → Bool) (f : Row → Row) (s s' : State) (current q r : Row)
      → IsKey p s
      → Has s current
      → p current ≡ true
      → update p f s ≡ some (q, s')
      → Has s' r
      → (r ≡ f current) ⊎ (Has s r × (p r ≡ false))
  update_row_of p f s s' current q r key has meets written m =
      elim (table.update_has p f s q s' r written m) [
        | inl (r0, has0, meets0, e) ↦ inl (e ∙ ap f (key r0 current has0 has meets0 meets))
        | inr old ↦ inr old
      ]

  pub returned_row_of :
      (p : Row → Bool) (f : Row → Row) (s s' : State) (current q : Row)
      → IsKey p s
      → Has s current
      → p current ≡ true
      → update p f s ≡ some (q, s')
      → q ≡ f current
  returned_row_of p f s s' current q key has meets written =
      let (r0, has0, meets0, e) = table.update_row p f s q s' written in
      e ∙ ap f (key r0 current has0 has meets0 meets)

  pub update_current :
      (p : Row → Bool) (f : Row → Row) (s s' : State) (current q r : Row)
      → IsKey p s
      → find_first p s ≡ some current
      → update p f s ≡ some (q, s')
      → Has s' r
      → (r ≡ f current) ⊎ (Has s r × (p r ≡ false))
  update_current p f s s' current q r key found written m =
      let (has, meets) = table.find_first_some p s current found in
      update_row_of p f s s' current q r key has meets written m

  pub update_returned :
      (p : Row → Bool) (f : Row → Row) (s s' : State) (current q : Row)
      → IsKey p s
      → find_first p s ≡ some current
      → update p f s ≡ some (q, s')
      → q ≡ f current
  update_returned p f s s' current q key found written =
      let (has, meets) = table.find_first_some p s current found in
      returned_row_of p f s s' current q key has meets written
