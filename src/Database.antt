-- ===== src/Database.antt =====
-- What backend/src/modules asks of a table of the database through Prisma, which is not part of the
-- repository: an interface, and the laws that the services rely on. A query's condition is a test on
-- rows; the company that backend/src/prisma adds to it is written out where a service queries.
pub mod ListTable
pub mod Keyed
pub mod PrimaryKey
use logistics_center.Base.{ℕ, ◌≡◌, Bool, true, false, ◌⊎◌, Option, none, some, List, Elem}

pub record Table (Row : Type 0) : Type 1 where
  pub State : Type 0
  pub Has : State → Row → Type 0
  -- `findFirst({ where })`
  pub find_first : (Row → Bool) → State → Option Row
  -- `findMany({ where })`
  pub find_many : (Row → Bool) → State → List Row
  -- `create({ data })`: the data are completed by the identifier that the database gives.
  pub create : (ℕ → Row) → State → Row × State
  -- `update({ where, data })`: `none` where no row meets the condition.
  pub update : (Row → Bool) → (Row → Row) → State → Option (Row × State)
  pub find_first_some :
      (p : Row → Bool) (s : State) (r : Row) → find_first p s ≡ some r → Has s r × (p r ≡ true)
  pub find_first_none :
      (p : Row → Bool) (s : State) (r : Row) → find_first p s ≡ none → Has s r → p r ≡ false
  pub find_many_sound :
      (p : Row → Bool) (s : State) (r : Row) → Elem r (find_many p s) → Has s r × (p r ≡ true)
  pub find_many_complete :
      (p : Row → Bool) (s : State) (r : Row) → Has s r → p r ≡ true → Elem r (find_many p s)
  pub create_row : (f : ℕ → Row) (s : State) → (i : ℕ) × ((create f s).0 ≡ f i)
  pub create_has :
      (f : ℕ → Row) (s : State) (r : Row) → Has (create f s).1 r → (r ≡ (create f s).0) ⊎ Has s r
  pub create_in : (f : ℕ → Row) (s : State) → Has (create f s).1 (create f s).0
  pub create_kept : (f : ℕ → Row) (s : State) (r : Row) → Has s r → Has (create f s).1 r
  pub update_row :
      (p : Row → Bool) (f : Row → Row) (s : State) (q : Row) (s' : State)
      → update p f s ≡ some (q, s')
      → (r : Row) × Has s r × (p r ≡ true) × (q ≡ f r)
  pub update_has :
      (p : Row → Bool) (f : Row → Row) (s : State) (q : Row) (s' : State) (r : Row)
      → update p f s ≡ some (q, s')
      → Has s' r
      → ((r0 : Row) × Has s r0 × (p r0 ≡ true) × (r ≡ f r0)) ⊎ (Has s r × (p r ≡ false))
  pub update_in :
      (p : Row → Bool) (f : Row → Row) (s : State) (q : Row) (s' : State)
      → update p f s ≡ some (q, s')
      → Has s' q
  pub update_kept :
      (p : Row → Bool) (f : Row → Row) (s : State) (q : Row) (s' : State) (r : Row)
      → update p f s ≡ some (q, s')
      → Has s r
      → p r ≡ false
      → Has s' r
  pub update_some :
      (p : Row → Bool) (f : Row → Row) (s : State) (r : Row)
      → Has s r
      → p r ≡ true
      → (out : Row × State) × (update p f s ≡ some out)
