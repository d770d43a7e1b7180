-- ===== src/Compensation/Versioning.antt =====
-- What createPaymentRule and updatePaymentRule of
-- backend/src/modules/compensation/payment-rules.service.ts do to the histories of rules.
use logistics_center.Base.{
  ℕ, suc, ◌≡◌, refl, sym, ap, subst, ◌∙◌, ◌⊎◌, inl, inr, true, false, not, Option, none, some, List,
  [], ◌∷◌, ◌==◌, ==_iff, ==_refl, if◌then◌else◌, Elem, ok, err, bad_request, not_found, arith,
  Bool-cases, Option-cases, &&_iff, bind_returns, throw_if, or_throw, or_throw-some, get_or,
  ok_injective, List-cases, ltb,
}
use logistics_center.Base.Text.{Text, text_eq, text_eq-eq, text_eq_refl}
use logistics_center.Database.{Table}
use logistics_center.Compensation.Ecma.{Ecma}
use logistics_center.Compensation.Effective.{PaymentRule, validate_effective_window}
use logistics_center.Compensation.RuleConfig.{build_payment_rule_config, parse_payment_rule_config}
use logistics_center.Compensation.PaymentRules.{
  CreatePaymentRuleDto, UpdatePaymentRuleDto, PaymentRuleResponse, newest, map_payment_rule,
  first_version, respond, create_payment_rule, next_version, has_id, has_rule_key, is_latest,
  update_payment_rule, has_any_updates, is_defined, conditions_value,
}
use logistics_center.Compensation.RuleHistory.{
  Histories, IsHistory, IsHistory-newest, IsHistory-bound, newest_sound, newest_max, publish,
  Refines, create-Refines,
}

module _ (js : Ecma) (uuid : ℕ → Text) (table : Table (PaymentRule js.N)) where
  open js use {N}
  open table use {State, Has, find_first, find_many, create}

  -- The response is that of the row created, and the state is the one that holds it.
  respond_lem :
      (made : PaymentRule N × State) (response : PaymentRuleResponse N) (s' : State)
      → respond js uuid table made ≡ ok (response, s')
      → (map_payment_rule js made.0 ≡ ok response) × (made.1 ≡ s')
  respond_lem (rule, s) response s' h =
      let (shown, mapped, h1) = bind_returns (map_payment_rule js rule) _ h in
      let same = ok_injective (shown, s) (response, s') h1 in
      (mapped ∙ ap (λ out. ok out.0) same, ap (λ out. out.1) same)

  -- Where the key that `randomUUID` gives is new in the company, createPaymentRule publishes version 1
  -- under it.
  pub create_payment_rule-Refines :
      (company_id user : ℕ) (key : Text) (dto : CreatePaymentRuleDto N) (s s' : State)
      (h : Histories N) (response : PaymentRuleResponse N)
      → Refines table s h
      → h company_id key ≡ []
      → create_payment_rule js uuid table company_id user key dto s ≡ ok (response, s')
      → (row : PaymentRule N) × (map_payment_rule js row ≡ ok response)
        × (row.version ≡ 1)
        × (row.rule_key ≡ key)
        × (row.company_id ≡ company_id)
        × Refines table s' (publish row h)
  unfolding create_payment_rule first_version
  create_payment_rule-Refines company_id user key dto s s' h response inv new returned =
      let (_, _, h1) =
        bind_returns
          (validate_effective_window (get_or dto.effective_from none)
            (get_or dto.effective_to none))
          _ returned in
      let (config, _, h2) =
        bind_returns (build_payment_rule_config js dto.rule_type dto.value dto.conditions) _ h1 in
      let f = first_version js uuid table company_id user key dto config in
      let (mapped, same) = respond_lem (create f s) response s' h2 in
      let (i, made) = table.create_row f s in
      (
        f i,
        ap (map_payment_rule js) (sym made) ∙ mapped,
        refl,
        refl,
        refl,
        subst (λ t. Refines table t (publish (f i) h)) same
            (create-Refines table f (f i) s h made (rw new refl) inv),
      )

  -- No two rows of a company share an identifier.
  abbrev pub AreDistinct : ℕ → State → Type 0
  AreDistinct company_id s =
      (x y : PaymentRule N)
      → Has s x
      → Has s y
      → x.company_id ≡ company_id
      → y.company_id ≡ company_id
      → text_eq x.id y.id ≡ true
      → x ≡ y

  -- A row is in the history of its company and key.
  recorded_under :
      (company_id : ℕ) (key : Text) (r : PaymentRule N) (s : State) (h : Histories N)
      → Refines table s h
      → Has s r
      → r.company_id ≡ company_id
      → r.rule_key ≡ key
      → Elem r (h company_id key)
  recorded_under company_id key r s h inv has own under =
      subst (λ k. Elem r (h company_id k)) under
        (subst (λ c. Elem r (h c r.rule_key)) own (inv.recorded r has))

  -- The newest row of a key is the head of its history.
  newest_heads :
      (company_id : ℕ) (key : Text) (s : State) (h : Histories N) (head : PaymentRule N)
      (older : List (PaymentRule N))
      → Refines table s h
      → h company_id key ≡ head ∷ older
      → newest (find_many (has_rule_key js uuid table company_id key) s) ≡ some head
  newest_heads company_id key s h head older inv heads =
      let (has, own, under) =
        inv.stored company_id key head (subst (Elem head) (sym heads) (inl refl)) in
      let meets : has_rule_key js uuid table company_id key head ≡ true =
        rw own (rw under (rw (==_refl company_id) (text_eq_refl key))) in
      let rows = find_many (has_rule_key js uuid table company_id key) s in
      let (q, found, newer) = newest_max rows head (table.find_many_complete _ s head has meets) in
      let (has_q, meets_q) = table.find_many_sound _ s q (newest_sound rows q found) in
      let (own_q, under_q) =
        (&&_iff (q.company_id == company_id) (text_eq q.rule_key key)).0 meets_q in
      let member =
        recorded_under company_id key q s h inv has_q ((==_iff q.company_id company_id).0 own_q)
          (text_eq-eq q.rule_key key under_q) in
      found
      ∙ ap some (
          IsHistory-newest head q older (subst IsHistory heads (inv.numbered company_id key))
            (subst (Elem q) heads member) newer)

  -- The test of updatePaymentRule that the row found is the newest, on the histories.
  is_latest-newest :
      (company_id : ℕ) (current : PaymentRule N) (s : State) (h : Histories N)
      → Refines table s h
      → AreDistinct company_id s
      → Has s current
      → current.company_id ≡ company_id
      → is_latest js uuid table
          (newest (find_many (has_rule_key js uuid table company_id current.rule_key) s))
          current
        ≡ true
      → (older : List (PaymentRule N)) × (h company_id current.rule_key ≡ current ∷ older)
  is_latest-newest company_id current s h inv distinct has own latest =
      let member = recorded_under company_id current.rule_key current s h inv has own refl in
      elim (List-cases (h company_id current.rule_key)) [
        | inl e ↦ absurd (subst (Elem current) e member)
        | inr (head, older, e) ↦
            let found = newest_heads company_id current.rule_key s h head older inv e in
            let same : text_eq head.id current.id ≡ true =
              subst (λ o. is_latest js uuid table o current ≡ true) found latest in
            let (has_head, own_head, _) =
              inv.stored company_id current.rule_key head (subst (Elem head) (sym e) (inl refl)) in
            (older, e ∙ ap (λ x. x ∷ older) (distinct head current has_head has own_head own same))
      ]

  -- updatePaymentRule publishes a version only where the one named heads its history, and the new
  -- one follows it.
  pub update_payment_rule-Refines :
      (company_id user : ℕ) (rule_version_id : Text) (dto : UpdatePaymentRuleDto N) (s s' : State)
      (h : Histories N) (response : PaymentRuleResponse N)
      → Refines table s h
      → AreDistinct company_id s
      → update_payment_rule js uuid table company_id user rule_version_id dto s ≡ ok (response, s')
      → (row current : PaymentRule N) × (older : List (PaymentRule N)) × (map_payment_rule js row
          ≡ ok response)
        × (h company_id row.rule_key ≡ current ∷ older)
        × (text_eq current.id rule_version_id ≡ true)
        × (row.version ≡ suc current.version)
        × (row.company_id ≡ company_id)
        × Refines table s' (publish row h)
  unfolding update_payment_rule next_version
  update_payment_rule-Refines company_id user id dto s s' h response inv distinct returned =
      let (_, _, h1) =
        bind_returns
          (validate_effective_window (get_or dto.effective_from none)
            (get_or dto.effective_to none))
          _ returned in
      let (current, looked, h2) =
        bind_returns (or_throw (find_first (has_id js uuid table company_id id) s) not_found) _
          h1 in
      let found = or_throw-some _ not_found current looked in
      let (has, meets) = table.find_first_some _ s current found in
      let (own, named) =
        (&&_iff (current.company_id == company_id) (text_eq current.id id)).0 meets in
      let company = (==_iff current.company_id company_id).0 own in
      let latest =
        is_latest js uuid table
          (newest (find_many (has_rule_key js uuid table company_id current.rule_key) s)) current in
      let (_, passed, h3) = bind_returns (throw_if (not latest) bad_request) _ h2 in
      let (_, _, h4) = bind_returns (throw_if (not (has_any_updates dto)) bad_request) _ h3 in
      let (stored, _, h5) = bind_returns (parse_payment_rule_config js current.config) _ h4 in
      let (config, _, h6) =
        bind_returns
          (build_payment_rule_config js (get_or dto.rule_type current.rule_type)
            (get_or dto.value stored.value)
            (if is_defined dto.conditions
              then dto.conditions
              else conditions_value stored.conditions))
          _ h5 in
      let f = next_version js uuid table company_id user dto current config in
      let (mapped, same) = respond_lem (create f s) response s' h6 in
      let (i, made) = table.create_row f s in
      let (older, heads) =
        is_latest-newest company_id current s h inv distinct has company (ground (arith, passed)) in
      let numbered = (subst IsHistory heads (inv.numbered company_id current.rule_key)).0 in
      (
        f i,
        current,
        older,
        ap (map_payment_rule js) (sym made) ∙ mapped,
        heads,
        named,
        omega arith,
        refl,
        subst (λ t. Refines table t (publish (f i) h)) same
            (create-Refines table f (f i) s h made (rw heads (omega (arith, numbered))) inv),
      )

  window_refused :
      (first last : Option ℕ)
      → (validate_effective_window first last ≡ ok tt)
        ⊎ (validate_effective_window first last ≡ err bad_request)
  unfolding validate_effective_window
  window_refused none last = inl refl
  window_refused (some f) none = inl refl
  window_refused (some f) (some t) = elim (Bool-cases (ltb t f)) [
    | inl e ↦ inr (rw e)
    | inr e ↦ inl (rw e)
  ]

  found_by_id :
      (company_id : ℕ) (current : PaymentRule N) (s : State)
      → AreDistinct company_id s
      → Has s current
      → current.company_id ≡ company_id
      → find_first (has_id js uuid table company_id current.id) s ≡ some current
  found_by_id company_id current s distinct has own =
      let meets : has_id js uuid table company_id current.id current ≡ true =
        rw own (rw (==_refl company_id) (text_eq_refl current.id)) in
      elim (Option-cases (find_first (has_id js uuid table company_id current.id) s)) [
        | inl missing ↦
            let fails = table.find_first_none _ s current missing has in absurd (ground arith)
        | inr (r, found) ↦
            let (has_r, meets_r) = table.find_first_some _ s r found in
            let (own_r, same) =
              (&&_iff (r.company_id == company_id) (text_eq r.id current.id)).0 meets_r in
            found
            ∙ ap some
                (distinct r current has_r has ((==_iff r.company_id company_id).0 own_r) own same)
      ]

  -- A version that is superseded is never updated: the call throws, whatever its fields.
  pub update_payment_rule-superseded :
      (company_id user : ℕ) (dto : UpdatePaymentRuleDto N) (s : State) (h : Histories N)
      (current head : PaymentRule N) (older : List (PaymentRule N))
      → Refines table s h
      → AreDistinct company_id s
      → h company_id current.rule_key ≡ head ∷ older
      → Elem current older
      → update_payment_rule js uuid table company_id user current.id dto s ≡ err bad_request
  unfolding update_payment_rule
  update_payment_rule-superseded company_id user dto s h current head older inv distinct heads m =
      let (has, own, _) =
        inv.stored company_id current.rule_key current (subst (Elem current) (sym heads) (inr m)) in
      let (has_head, own_head, _) =
        inv.stored company_id current.rule_key head (subst (Elem head) (sym heads) (inl refl)) in
      let (top, below) = subst IsHistory heads (inv.numbered company_id current.rule_key) in
      let bound = IsHistory-bound older current below m in
      let other : text_eq head.id current.id ≡ false =
        elim (Bool-cases (text_eq head.id current.id)) [
          | inl e ↦
              let same = ap (λ x. x.version) (distinct head current has_head has own_head own e) in
              absurd (omega arith)
          | inr e ↦ e
        ] in
      elim (window_refused (get_or dto.effective_from none) (get_or dto.effective_to none)) [
        | inl e ↦ rw e (
            rw (found_by_id company_id current s distinct has own) (
              rw (newest_heads company_id current.rule_key s h head older inv heads)
                (rw other refl)))
        | inr e ↦ rw e refl
      ]
