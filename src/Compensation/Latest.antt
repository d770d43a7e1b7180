-- ===== src/Compensation/Latest.antt =====
-- Which versions of the rules `latestRulesOnly` and the filter after it keep, in
-- backend/src/modules/compensation/payments.service.ts.
use logistics_center.Base.{
  ℕ, ◌≤◌, ◌≡◌, refl, ◌⊎◌, inl, inr, true, false, ◌&&◌, Option, none, some, List, [], ◌∷◌,
  if◌then◌else◌, arith, Elem, Bool-cases, sym, ap, subst, ◌∙◌,
}
use logistics_center.Base.Text.{Text, text_eq, text_eq-eq, text_eq_refl, text_eq_euclid}
use logistics_center.Compensation.Effective.{
  PaymentRule, find_rule, set_rule, supersedes, keep_latest, collect_latest,
}

module _ {N : Type 0} where
  pub find_rule_sound :
      (key : Text) (rs : List (PaymentRule N)) (r : PaymentRule N)
      → find_rule key rs ≡ some r
      → Elem r rs × (text_eq r.rule_key key ≡ true)
  find_rule_sound key [] r h = absurd (ground arith)
  find_rule_sound key (x ∷ xs) r h = elim (Bool-cases (text_eq x.rule_key key)) [
    | inl e ↦
        let same : x ≡ r = ground (arith, e) in
        (inl (sym same), subst (λ y. text_eq y.rule_key key ≡ true) same e)
    | inr e ↦ let (m, k) = find_rule_sound key xs r (ground (arith, e)) in (inr m, k)
  ]

  -- What a write to the map leaves: the new rule under its key, the others under theirs.
  find_rule-set_rule :
      (rule : PaymentRule N) (key : Text) (rs : List (PaymentRule N))
      → find_rule key (set_rule rule rs)
        ≡ (if text_eq rule.rule_key key then some rule else find_rule key rs)
  find_rule-set_rule rule key [] = refl
  find_rule-set_rule rule key (x ∷ xs) = elim (Bool-cases (text_eq x.rule_key rule.rule_key)) [
    | inl e ↦
        let same : x.rule_key ≡ rule.rule_key = text_eq-eq x.rule_key rule.rule_key e in
        let keys : text_eq x.rule_key key ≡ text_eq rule.rule_key key =
          ap (λ k. text_eq k key) same in
        rw e (ground (arith, keys))
    | inr e ↦ rw e (
        ground
          (arith, e, find_rule-set_rule rule key xs, text_eq_euclid x.rule_key key rule.rule_key))
  ]

  -- No two rules of a list share a key.
  abbrev pub Distinct : List (PaymentRule N) → Type 0
  Distinct [] = Unit
  Distinct (x ∷ xs) = (find_rule x.rule_key xs ≡ none) × Distinct xs

  pub find_rule_key :
      (rs : List (PaymentRule N)) (j k : Text)
      → text_eq j k ≡ true
      → find_rule j rs ≡ find_rule k rs
  find_rule_key rs j k e = ap (λ key. find_rule key rs) (text_eq-eq j k e)

  set_rule-Distinct :
      (rule : PaymentRule N) (rs : List (PaymentRule N)) → Distinct rs → Distinct (set_rule rule rs)
  set_rule-Distinct rule [] d = (refl, tt)
  set_rule-Distinct rule (x ∷ xs) (n, d) = elim (Bool-cases (text_eq x.rule_key rule.rule_key)) [
    | inl e ↦ rw e (sym (find_rule_key xs x.rule_key rule.rule_key e) ∙ n, d)
    | inr e ↦
        let other : text_eq rule.rule_key x.rule_key ≡ false =
          ground (
            arith,
            text_eq_euclid x.rule_key x.rule_key rule.rule_key,
            text_eq_refl x.rule_key,
            e,
          ) in
        rw e (find_rule-set_rule rule x.rule_key xs ∙ (rw other n), set_rule-Distinct rule xs d)
  ]

  -- In a list of distinct keys a rule is found under its key.
  pub find_rule_self :
      (q : PaymentRule N) (rs : List (PaymentRule N))
      → Distinct rs
      → Elem q rs
      → find_rule q.rule_key rs ≡ some q
  find_rule_self q [] d m = absurd m
  find_rule_self q (x ∷ xs) (n, d) (inl e) = rw e (rw (text_eq_refl x.rule_key))
  find_rule_self q (x ∷ xs) (n, d) (inr m) = elim (Bool-cases (text_eq x.rule_key q.rule_key)) [
    | inl e ↦
        absurd
          (ground (arith, find_rule_self q xs d m, find_rule_key xs x.rule_key q.rule_key e, n))
    | inr e ↦ rw e (find_rule_self q xs d m)
  ]

  -- The latest version under a key, from a first candidate: the map's entry as a recursion of its own.
  abbrev step_best : Text → Option (PaymentRule N) → PaymentRule N → Option (PaymentRule N)
  step_best key best rule =
      if text_eq rule.rule_key key && supersedes rule best then some rule else best

  pub best_of : Text → Option (PaymentRule N) → List (PaymentRule N) → Option (PaymentRule N)
  best_of key best [] = best
  best_of key best (rule ∷ rules) = best_of key (step_best key best rule) rules

  step_entry :
      (key : Text) (latest : List (PaymentRule N)) (rule : PaymentRule N)
      → find_rule key (keep_latest latest rule) ≡ step_best key (find_rule key latest) rule
  step_entry key latest rule = elim (Bool-cases (text_eq rule.rule_key key)) [
    | inl e ↦
        ground
          (arith, e, find_rule-set_rule rule key latest, find_rule_key latest rule.rule_key key e)
    | inr e ↦ elim (Bool-cases (supersedes rule (find_rule rule.rule_key latest))) [
      | inl t ↦ rw t (find_rule-set_rule rule key latest ∙ (rw e refl))
      | inr t ↦ rw t (rw e)
    ]
  ]

  -- The map that the loop fills holds the latest version of each key.
  pub find_rule-collect_latest :
      (key : Text) (latest rules : List (PaymentRule N))
      → find_rule key (collect_latest latest rules) ≡ best_of key (find_rule key latest) rules
  unfolding collect_latest best_of
  find_rule-collect_latest key latest [] = refl
  find_rule-collect_latest key latest (rule ∷ rules) =
      find_rule-collect_latest key (keep_latest latest rule) rules
      ∙ ap (λ b. best_of key b rules) (step_entry key latest rule)

  pub collect_latest-Distinct :
      (latest rules : List (PaymentRule N))
      → Distinct latest
      → Distinct (collect_latest latest rules)
  unfolding collect_latest
  collect_latest-Distinct latest [] d = d
  collect_latest-Distinct latest (rule ∷ rules) d =
      collect_latest-Distinct (keep_latest latest rule) rules
        (elim (Bool-cases (supersedes rule (find_rule rule.rule_key latest))) [
          | inl e ↦ rw e (set_rule-Distinct rule latest d)
          | inr e ↦ rw e d
        ])

  -- The version of a candidate, zero if there is none.
  abbrev pub AtLeast : Option (PaymentRule N) → ℕ → Type 0
  AtLeast none v = ⊥
  AtLeast (some q) v = v ≤ q.version

  step_best_grows :
      (key : Text) (best : Option (PaymentRule N)) (rule : PaymentRule N) (v : ℕ)
      → AtLeast best v
      → AtLeast (step_best key best rule) v
  step_best_grows key none rule v h = absurd h
  step_best_grows key (some q) rule v h = ground arith

  step_best_reaches :
      (key : Text) (best : Option (PaymentRule N)) (rule : PaymentRule N)
      → text_eq rule.rule_key key ≡ true
      → AtLeast (step_best key best rule) rule.version
  step_best_reaches key none rule e = rw e (omega arith)
  step_best_reaches key (some q) rule e = rw e (ground arith)

  best_of_grows :
      (key : Text) (best : Option (PaymentRule N)) (rules : List (PaymentRule N)) (v : ℕ)
      → AtLeast best v
      → AtLeast (best_of key best rules) v
  unfolding best_of
  best_of_grows key best [] v h = h
  best_of_grows key best (rule ∷ rules) v h =
      best_of_grows key (step_best key best rule) rules v (step_best_grows key best rule v h)

  pub best_of_reaches :
      (key : Text) (best : Option (PaymentRule N)) (rules : List (PaymentRule N))
      (r : PaymentRule N)
      → Elem r rules
      → text_eq r.rule_key key ≡ true
      → AtLeast (best_of key best rules) r.version
  unfolding best_of
  best_of_reaches key best [] r m e = absurd m
  best_of_reaches key best (rule ∷ rules) r (inl same) e =
      best_of_grows key (step_best key best rule) rules r.version (
        subst (λ x. AtLeast (step_best key best rule) x.version) (sym same)
          (step_best_reaches key best rule (subst (λ x. text_eq x.rule_key key ≡ true) same e)))
  best_of_reaches key best (rule ∷ rules) r (inr m) e =
      best_of_reaches key (step_best key best rule) rules r m e

  -- A candidate is the first one, or one of the rules.
  pub best_of_from :
      (key : Text) (best : Option (PaymentRule N)) (rules : List (PaymentRule N))
      (q : PaymentRule N)
      → best_of key best rules ≡ some q
      → (best ≡ some q) ⊎ Elem q rules
  unfolding best_of
  best_of_from key best [] q h = inl h
  best_of_from key best (rule ∷ rules) q h =
      elim (best_of_from key (step_best key best rule) rules q h) [
        | inl e ↦ ground (arith, e)
        | inr m ↦ inr (inr m)
      ]
