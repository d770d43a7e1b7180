-- ===== src/Integrations/Idempotence.antt =====
-- A request that `importOrder` of backend/src/modules/integrations/integrations.service.ts has answered,
-- sent again under its key.
use logistics_center.Base.{
  ℕ, ◌≡◌, refl, sym, ap, subst, ◌∙◌, inl, inr, Bool, true, false, ◌&&◌, Option, none, some, ◌==◌,
  ==_iff, ==_refl, Result, Result-cases, ok, err, Error, Option-cases, Bool-cases, ◌>>=◌, ◌==?◌,
}
use logistics_center.Base.Text.{Text}
use logistics_center.Database.{Table}
use logistics_center.Database.PrimaryKey.{IsPrimaryKey}
use logistics_center.Orders.Columns.{Order, References}
use logistics_center.Orders.Service.{get_order}
use logistics_center.Integrations.Rows.{
  existing, InboundIntegration, ImportResponse, InboundEvent, Attempt, finished, thrown, has_key,
  map_integration_order_response, is_conflict,
}
use logistics_center.Integrations.Import.{
  ensure_external_id_map, is_event, mark_event_succeeded, mark_event_failed,
  try_recover_existing_order,
}
use logistics_center.Integrations.Responses.{HasDates, map_integration_order_response-HasDates}
use logistics_center.Integrations.Processing.{
  Db, store_recovered, store_failure, recovered, after_attempt,
}
use logistics_center.Integrations.Events.{
  HasResponded, Stays, ensure_external_id_map-Stays, mark_event_succeeded-HasResponded,
  AttemptKeeps,
}

module _ {Num Decimal : Type 0} (decimal : Num → Decimal) (orders : Table (Order Num Decimal))
    (events : Table (InboundEvent Num)) (references : References) (request_id : Option ℕ) (now : ℕ)
    (iso : ℕ → Text) where
  abbrev DbOf : Type 0
  DbOf = Db decimal orders events references request_id now iso

  -- Where a response is returned, the event has it.
  abbrev pub Responds : ℕ → DbOf → DbOf × Result (ImportResponse Num) → Type 0
  Responds id before (db, ok response) =
      HasResponded decimal orders events references request_id now iso id before db response
  Responds id before (db, err e) = Unit

  store_recovered-Responds :
      (id entity_id external_id : ℕ) (before db : DbOf) (made : Result (ImportResponse Num))
      → Stays decimal orders events references request_id now iso before db
      → ((r : ImportResponse Num) → made ≡ ok r → HasDates r)
      → Responds id before (
          store_recovered decimal orders events references request_id now iso id entity_id
            external_id db made)
  store_recovered-Responds id entity_id external_id before db (err e) stays dates = tt
  store_recovered-Responds id entity_id external_id before db (ok response) stays dates =
      elim (Result-cases (
        mark_event_succeeded decimal orders events references request_id now iso id entity_id
          external_id response db)) [
            | inl (e, h) ↦
                let same : (db, err e)
                    ≡ store_recovered decimal orders events references request_id now iso id
                        entity_id external_id db (ok response) =
                  rw (store_recovered, h) in
                subst (Responds id before) same tt
            | inr (db', h) ↦
                let same : (db', ok response)
                    ≡ store_recovered decimal orders events references request_id now iso id
                        entity_id external_id db (ok response) =
                  rw (store_recovered, h) in
                subst (Responds id before) same (
                  mark_event_succeeded-HasResponded decimal orders events references request_id now
                    iso id entity_id external_id response before db db' stays.0 stays.1
                    (dates response refl) h)
          ]

  store_failure-Responds :
      (id external_id : ℕ) (e : Error) (before db : DbOf)
      → Responds id before
          (store_failure decimal orders events references request_id now iso id external_id e db)
  store_failure-Responds id external_id e before db =
      elim (Result-cases (
        mark_event_failed decimal orders events references request_id now iso id external_id e
          db)) [
            | inl (e', h) ↦
                let same : (db, err e')
                    ≡ store_failure decimal orders events references request_id now iso id
                        external_id e db =
                  rw (store_failure, h) in
                subst (Responds id before) same tt
            | inr (db', h) ↦
                let same : (db', err e)
                    ≡ store_failure decimal orders events references request_id now iso id
                        external_id e db =
                  rw (store_failure, h) in
                subst (Responds id before) same tt
          ]

  module _ (integration : InboundIntegration) (key : Text) where
    recovered-Responds :
        (external_id id : ℕ) (e : Error) (before : DbOf)
        (found : DbOf × Result (Option (Order Num Decimal)))
        → Stays decimal orders events references request_id now iso before found.0
        → Responds id before (
            recovered decimal orders events references request_id now iso integration key
              external_id id e found)
    recovered-Responds external_id id e before (db, err e') stays = tt
    recovered-Responds external_id id e before (db, ok none) stays =
        store_failure-Responds id external_id e before db
    recovered-Responds external_id id e before (db, ok (some o)) stays =
        store_recovered-Responds id o.id external_id before db
          (map_integration_order_response key integration.name existing o) stays
          (map_integration_order_response-HasDates key integration.name existing o)

    try_recover_existing_order-Stays :
        (external_id : ℕ) (e : Error) (names : Bool) (before db : DbOf)
        → Stays decimal orders events references request_id now iso before db
        → Stays decimal orders events references request_id now iso before
            (try_recover_existing_order decimal orders events references request_id now iso
              integration external_id e names db).0
    unfolding try_recover_existing_order
    try_recover_existing_order-Stays external_id e names before db stays =
        let test = λ (o : Order Num Decimal).
          o.company_id == integration.company_id && o.external_id ==? some external_id in
        let keep = λ (out : DbOf × Result (Option (Order Num Decimal))).
          Stays decimal orders events references request_id now iso before out.0 in
        elim (Bool-cases (is_conflict e && names)) [
          | inr f ↦
              let same : (db, ok none)
                  ≡ try_recover_existing_order decimal orders events references request_id now iso
                      integration external_id e names db =
                rw f refl in
              subst keep same stays
          | inl t ↦ elim (Option-cases (orders.find_first test db.orders_db.rows)) [
            | inl n ↦
                let same : (db, ok none)
                    ≡ try_recover_existing_order decimal orders events references request_id now iso
                        integration external_id e names db =
                  rw t (rw n refl) in
                subst keep same stays
            | inr (o, found) ↦
                elim (Result-cases (
                  ensure_external_id_map decimal orders events references request_id now iso
                    integration external_id o.id db)) [
                      | inl (e', h) ↦
                          let same : (db, err e')
                              ≡ try_recover_existing_order decimal orders events references
                                  request_id now iso integration external_id e names db =
                            rw t (rw found (rw h refl)) in
                          subst keep same stays
                      | inr (db1, h) ↦
                          let same : (
                            db1,
                            get_order decimal orders integration.company_id o.id db1.orders_db
                                >>= λ x. ok (some x),
                          )
                              ≡ try_recover_existing_order decimal orders events references
                                  request_id now iso integration external_id e names db =
                            rw t (rw found (rw h refl)) in
                          subst keep same (
                            ensure_external_id_map-Stays decimal orders events references request_id
                              now iso integration external_id o.id before db db1 stays h)
                    ]
          ]
        ]

    pub after_attempt-Responds :
        (external_id id : ℕ) (before : DbOf) (attempt : DbOf × Attempt Num)
        → AttemptKeeps decimal orders events references request_id now iso id before attempt
        → Responds id before (
            after_attempt decimal orders events references request_id now iso integration key
              external_id id attempt)
    unfolding after_attempt
    after_attempt-Responds external_id id before (db, finished response) kept = kept
    after_attempt-Responds external_id id before (db, thrown e names) stays =
        recovered-Responds external_id id e before
          (try_recover_existing_order decimal orders events references request_id now iso
            integration external_id e names db)
          (try_recover_existing_order-Stays external_id e names before db stays)

  -- The test finds the answered event, and no other.
  pub answered_found :
      (company_id : ℕ) (key : Text) (f : ℕ → InboundEvent Num)
      (g : InboundEvent Num → InboundEvent Num) (s s' : events.State) (row : InboundEvent Num)
      → IsPrimaryKey events (λ e. e.id)
      → ((i : ℕ) → (f i).id ≡ i)
      → ((i : ℕ) → has_key company_id key (g (f i)) ≡ true)
      → events.find_first (has_key company_id key) s ≡ none
      → events.update
          (is_event decimal orders events references request_id now iso (events.create f s).0.id)
          g
          (events.create f s).1
        ≡ some (row, s')
      → events.find_first (has_key company_id key) s' ≡ some (g (events.create f s).0)
  answered_found company_id key f g s s' row fresh named keyed missing written =
      let e = (events.create f s).0 in
      let rows' = (events.create f s).1 in
      let test = is_event decimal orders events references request_id now iso e.id in
      let (i, made) = events.create_row f s in
      let answered : (r : InboundEvent Num) → events.Has rows' r → test r ≡ true → r ≡ e = λ r m t.
        elim (events.create_has f s r m) [
          | inl same ↦ same
          | inr old ↦ absurd (fresh f s r named old ((==_iff r.id e.id).0 t))
        ] in
      let (r0, m0, t0, row_is) = events.update_row test g rows' row s' written in
      let row_same : row ≡ g e = row_is ∙ ap g (answered r0 m0 t0) in
      let row_key : has_key company_id key row ≡ true =
        ap (has_key company_id key) (row_same ∙ ap g made) ∙ keyed i in
      elim (Option-cases (events.find_first (has_key company_id key) s')) [
        | inl n ↦ absurd (
            true≢false (
              sym row_key
              ∙ events.find_first_none _ s' row n (events.update_in test g rows' row s' written)))
        | inr (x, found) ↦
            let (has, meets) = events.find_first_some _ s' x found in
            elim (events.update_has test g rows' row s' x written has) [
              | inl (r1, m1, t1, x_is) ↦ found ∙ ap some (x_is ∙ ap g (answered r1 m1 t1))
              | inr (old, other) ↦ elim (events.create_has f s x old) [
                | inl same ↦
                    let self : test x ≡ true = ap test same ∙ ==_refl e.id in
                    absurd (true≢false (sym self ∙ other))
                | inr older ↦
                    absurd (true≢false (sym meets ∙ events.find_first_none _ s x missing older))
              ]
            ]
      ]
    where
      true≢false : true ≡ false → ⊥
      true≢false h = cc
