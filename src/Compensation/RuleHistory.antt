-- ===== src/Compensation/RuleHistory.antt =====
-- The rows of payment rules as what payment-rules.service.ts promises: for each company and rule key
-- an append-only history of versions, the newest first.
use logistics_center.Base.{
  ℕ, suc, ◌≤◌, ◌≡◌, refl, sym, ap, subst, ◌∙◌, ◌⊎◌, inl, inr, ◌&&◌, Option, none, some, List, [],
  ◌∷◌, ◌==◌, ==_iff, ==_refl, if◌then◌else◌, ltb, length, Elem, arith, Bool-cases, &&_iff,
}
use logistics_center.Base.Text.{Text, text_eq, text_eq-eq, text_eq_refl}
use logistics_center.Database.{Table}
use logistics_center.Compensation.Effective.{PaymentRule}
use logistics_center.Compensation.PaymentRules.{newer, newest}

-- The abstract state.
abbrev pub Histories : Type 0 → Type 0
Histories N = ℕ → Text → List (PaymentRule N)

module _ {N : Type 0} where
  -- The versions of a history are numbered from 1 on.
  abbrev pub IsHistory : List (PaymentRule N) → Type 0
  IsHistory [] = Unit
  IsHistory (r ∷ rs) = (r.version ≡ suc (length rs)) × IsHistory rs

  pub IsHistory-bound :
      (rs : List (PaymentRule N)) (r : PaymentRule N)
      → IsHistory rs
      → Elem r rs
      → r.version ≤ length rs
  IsHistory-bound [] r h m = absurd m
  IsHistory-bound (x ∷ xs) r (v, h) (inl e) =
      let same : r.version ≡ x.version = ap (λ q. q.version) e in omega arith
  IsHistory-bound (x ∷ xs) r (v, h) (inr m) = omega (arith, IsHistory-bound xs r h m)

  -- A version of a history that is as new as the newest is the newest.
  pub IsHistory-newest :
      (current q : PaymentRule N) (older : List (PaymentRule N))
      → IsHistory (current ∷ older)
      → Elem q (current ∷ older)
      → current.version ≤ q.version
      → q ≡ current
  IsHistory-newest current q older (v, h) (inl e) b = e
  IsHistory-newest current q older (v, h) (inr m) b =
      absurd (omega (arith, IsHistory-bound older q h m))

  newer_max :
      (r q : PaymentRule N) (rest : Option (PaymentRule N))
      → newer r rest ≡ q
      → ((r ≡ q) ⊎ (rest ≡ some q)) × (r.version ≤ q.version)
  newer_max r q none h = (inl h, subst (λ x. r.version ≤ x.version) h (omega arith))
  newer_max r q (some p) h = elim (Bool-cases (ltb r.version p.version)) [
    | inl e ↦
        let same : p ≡ q = ground (arith, e) in
        (inr (ap some same), subst (λ x. r.version ≤ x.version) same (ground (arith, e)))
    | inr e ↦
        let same : r ≡ q = ground (arith, e) in
        (inl same, subst (λ x. r.version ≤ x.version) same (omega arith))
  ]

  newer_over :
      (r q : PaymentRule N) (rest : Option (PaymentRule N)) (p : PaymentRule N)
      → newer r rest ≡ q
      → rest ≡ some p
      → p.version ≤ q.version
  newer_over r q rest p h e = elim (Bool-cases (ltb r.version p.version)) [
    | inl t ↦
        let same : p ≡ q = ground (arith, t) in
        subst (λ x. p.version ≤ x.version) same (omega arith)
    | inr t ↦
        let same : r ≡ q = ground (arith, t) in
        subst (λ x. p.version ≤ x.version) same (ground (arith, t))
  ]

  -- The first row in the order of descending versions is one of them, and none is newer.
  pub newest_sound :
      (rs : List (PaymentRule N)) (q : PaymentRule N) → newest rs ≡ some q → Elem q rs
  unfolding newest
  newest_sound [] q h = absurd (ground arith)
  newest_sound (r ∷ rs) q h =
      let same : newer r (newest rs) ≡ q = ground arith in
      elim (newer_max r q (newest rs) same).0 [
        | inl e ↦ inl (sym e)
        | inr e ↦ inr (newest_sound rs q e)
      ]

  pub newest_max :
      (rs : List (PaymentRule N)) (p : PaymentRule N)
      → Elem p rs
      → (q : PaymentRule N) × (newest rs ≡ some q) × (p.version ≤ q.version)
  unfolding newest
  newest_max [] p m = absurd m
  newest_max (r ∷ rs) p (inl e) = (
    newer r (newest rs),
    refl,
    subst (λ x. x.version ≤ (newer r (newest rs)).version) (sym e)
        (newer_max r (newer r (newest rs)) (newest rs) refl).1,
  )
  newest_max (r ∷ rs) p (inr m) =
      let (q, found, b) = newest_max rs p m in
      let c = newer_over r (newer r (newest rs)) (newest rs) q refl found in
      (newer r (newest rs), refl, omega arith)

  -- Its one operation.
  abbrev pub publish : PaymentRule N → Histories N → Histories N
  publish row h company_id key =
      if row.company_id == company_id && text_eq row.rule_key key
      then row ∷ h company_id key
      else h company_id key

  module _ (table : Table (PaymentRule N)) where
    open table use {State, Has, create}

    -- The rows are the versions of the histories, each in the history of its company and key.
    pub record Refines (s : State) (h : Histories N) : Type 0 where
      pub recorded : (r : PaymentRule N) → Has s r → Elem r (h r.company_id r.rule_key)
      pub stored :
          (company_id : ℕ) (key : Text) (r : PaymentRule N)
          → Elem r (h company_id key)
          → Has s r × (r.company_id ≡ company_id) × (r.rule_key ≡ key)
      pub numbered : (company_id : ℕ) (key : Text) → IsHistory (h company_id key)

    published :
        (row r : PaymentRule N) (h : Histories N)
        → (r ≡ row) ⊎ Elem r (h r.company_id r.rule_key)
        → Elem r (publish row h r.company_id r.rule_key)
    published row r h (inl e) =
        subst (λ x. Elem x (publish row h x.company_id x.rule_key)) (sym e)
          (rw (==_refl row.company_id) (rw (text_eq_refl row.rule_key) (inl refl)))
    published row r h (inr m) =
        elim (Bool-cases (row.company_id == r.company_id && text_eq row.rule_key r.rule_key)) [
          | inl e ↦ rw e (inr m)
          | inr e ↦ rw e m
        ]

    -- The history under a key is longer by the row, or as it was.
    publish-cases :
        (row : PaymentRule N) (h : Histories N) (company_id : ℕ) (key : Text)
        → ((row.company_id ≡ company_id)
            × (row.rule_key ≡ key)
            × (publish row h company_id key ≡ row ∷ h company_id key))
          ⊎ (publish row h company_id key ≡ h company_id key)
    publish-cases row h company_id key =
        elim (Bool-cases (row.company_id == company_id && text_eq row.rule_key key)) [
          | inl e ↦
              let (c, k) = (&&_iff (row.company_id == company_id) (text_eq row.rule_key key)).0 e in
              inl ((==_iff row.company_id company_id).0 c, text_eq-eq row.rule_key key k, rw e)
          | inr e ↦ inr (rw e)
        ]

    -- A row created with the next number publishes a version.
    pub create-Refines :
        (f : ℕ → PaymentRule N) (row : PaymentRule N) (s : State) (h : Histories N)
        → (create f s).0 ≡ row
        → row.version ≡ suc (length (h row.company_id row.rule_key))
        → Refines s h
        → Refines (create f s).1 (publish row h)
    create-Refines f row s h made numbered inv = record {
      recorded = λ r m. published row r h (elim (table.create_has f s r m) [
        | inl e ↦ inl (e ∙ made)
        | inr old ↦ inr (inv.recorded r old)
      ]);
      stored = λ company_id key r m. elim (publish-cases row h company_id key) [
        | inl (c, k, e) ↦ elim (subst (Elem r) e m) [
          | inl same ↦ (
            subst (Has (create f s).1) (made ∙ sym same) (table.create_in f s),
            ap (λ x. x.company_id) same ∙ c,
            ap (λ x. x.rule_key) same ∙ k,
          )
          | inr old ↦
              let (has, in_company, under) = inv.stored company_id key r old in
              (table.create_kept f s r has, in_company, under)
        ]
        | inr e ↦
            let (has, in_company, under) = inv.stored company_id key r (subst (Elem r) e m) in
            (table.create_kept f s r has, in_company, under)
      ];
      numbered = λ company_id key. elim (publish-cases row h company_id key) [
        | inl (c, k, e) ↦ subst IsHistory (sym e) (
          (subst (λ x. row.version ≡ suc (length (h company_id x))) k
              (subst (λ x. row.version ≡ suc (length (h x row.rule_key))) c numbered)),
          inv.numbered company_id key,
        )
        | inr e ↦ subst IsHistory (sym e) (inv.numbered company_id key)
      ];
    }
