-- ===== src/Integrations/Repeating.antt =====
-- `importOrder` of backend/src/modules/integrations/integrations.service.ts is idempotent under a key.
use logistics_center.Base.{
  ℕ, ◌≡◌, refl, sym, ap, subst, ◌∙◌, inl, inr, Option, some, ==_refl, Result, Result-cases, ok,
  ok_injective, err, Error, Option-cases, arith, find, or_throw, unauthorized,
}
use logistics_center.Base.Text.{Text, text_eq_refl}
use logistics_center.Database.{Table}
use logistics_center.Database.PrimaryKey.{IsPrimaryKey}
use logistics_center.Orders.Columns.{Order, References}
use logistics_center.Integrations.Rows.{
  InboundIntegration, InboundIntegrationOrderDto, ImportResponse, InboundEvent, has_key, new_event,
  cached_response, accepts, to_input_json_response,
}
use logistics_center.Integrations.Import.{
  read_headers, resolve_integration, succeed, attempt_import,
}
use logistics_center.Integrations.Responses.{sent, sent-to_input_json_response}
use logistics_center.Integrations.Processing.{Db, process_event, import_for, import_order}
use logistics_center.Integrations.Events.{HasResponded, attempt_import-AttemptKeeps}
use logistics_center.Integrations.Idempotence.{Responds, after_attempt-Responds, answered_found}

module _ {Num Decimal : Type 0} (decimal : Num → Decimal) (orders : Table (Order Num Decimal))
    (events : Table (InboundEvent Num)) (references : References) (request_id : Option ℕ) (now : ℕ)
    (iso : ℕ → Text) where
  abbrev DbOf : Type 0
  DbOf = Db decimal orders events references request_id now iso

  responded :
      (id : ℕ) (before : DbOf) (out : DbOf × Result (ImportResponse Num))
      (response : ImportResponse Num)
      → Responds decimal orders events references request_id now iso id before out
      → out.1 ≡ ok response
      → HasResponded decimal orders events references request_id now iso id before out.0 response
  responded id before (db, ok r) response h e =
      subst (HasResponded decimal orders events references request_id now iso id before db)
        (ok_injective r response e) h
  responded id before (db, err thrown) response h e = absurd (ground arith)

  -- Where a response is returned, the integrations stay, and under the key there is an event with a
  -- response that is sent as this one is.
  abbrev Answers :
      InboundIntegration
      → Text
      → DbOf
      → ImportResponse Num
      → DbOf × Result (ImportResponse Num)
      → Type 0
  Answers integration key db response out =
      out.1 ≡ ok response
      → (out.0.integrations ≡ db.integrations)
        × ((e : InboundEvent Num) × (events.find_first (has_key integration.company_id key)
                out.0.event_rows
              ≡ some e)
            × ((again : ImportResponse Num) × (cached_response e.status e.response ≡ ok again)
                × (sent iso again ≡ sent iso response)))

  import_for-Answers :
      (integration : InboundIntegration) (key : Text) (dto : InboundIntegrationOrderDto Num)
      (db : DbOf) (response : ImportResponse Num)
      → IsPrimaryKey events (λ e. e.id)
      → Answers integration key db response
          (import_for decimal orders events references request_id now iso integration key dto db)
  unfolding import_for process_event new_event
  import_for-Answers integration key dto db response fresh =
      let test = has_key integration.company_id key in
      let f = new_event integration key dto in
      let (e, rows') = events.create f db.event_rows in
      let queued : DbOf = record db { event_rows = rows' } in
      elim (Option-cases (events.find_first test db.event_rows)) [
        | inr (found, has) ↦
            let same : (db, cached_response found.status found.response)
                ≡ import_for decimal orders events references request_id now iso integration key dto
                    db =
              rw (import_for, has) in
            subst (Answers integration key db response) same
              (λ h. (refl, (found, has, (response, h, refl))))
        | inl missing ↦
            let out =
              process_event decimal orders events references request_id now iso integration key dto
                e queued in
            let same : out
                ≡ import_for decimal orders events references request_id now iso integration key dto
                    db =
              rw (import_for, missing) in
            subst (Answers integration key db response) same λ h.
              let answered =
                responded e.id queued out response
                  (after_attempt-Responds decimal orders events references request_id now iso
                    integration key dto.external_id e.id queued
                    (attempt_import decimal orders events references request_id now iso integration
                      key dto e.id queued)
                    (attempt_import-AttemptKeeps decimal orders events references request_id now iso
                      integration key dto e.id queued))
                  h in
              let g =
                succeed decimal orders events references request_id now iso answered.entity_id
                  answered.external_id response in
              (
                answered.integrations,
                (
                  g e,
                  answered_found decimal orders events references request_id now iso
                      integration.company_id key f g db.event_rows out.0.event_rows answered.row
                      fresh (λ i. refl)
                      (λ i. rw (==_refl integration.company_id) (rw (text_eq_refl key) refl))
                      missing answered.written,
                  (
                    to_input_json_response iso response,
                    refl,
                    sent-to_input_json_response iso response answered.dates,
                  ),
                ),
              )
      ]

  -- The second call, for an integration.
  import_for_repeated :
      (integration : InboundIntegration) (key : Text) (dto : InboundIntegrationOrderDto Num)
      (db : DbOf) (e : InboundEvent Num) (response : ImportResponse Num)
      → events.find_first (has_key integration.company_id key) db.event_rows ≡ some e
      → cached_response e.status e.response ≡ ok response
      → import_for decimal orders events references request_id now iso integration key dto db
        ≡ (db, ok response)
  unfolding import_for
  import_for_repeated integration key dto db e response found cached =
      let same : import_for decimal orders events references request_id now iso integration key dto
            db
          ≡ (db, cached_response e.status e.response) =
        rw (import_for, found) in
      same ∙ ap (λ r. (db, r)) cached

  -- After the headers and the integration.
  import_order_in :
      (name secret key : Option Text) (n s k : Text) (dto : InboundIntegrationOrderDto Num)
      (db : DbOf) (integration : InboundIntegration)
      → read_headers decimal orders events references request_id now iso name secret key
        ≡ ok (n, s, k)
      → resolve_integration decimal orders events references request_id now iso n s db
        ≡ ok integration
      → import_order decimal orders events references request_id now iso name secret key dto db
        ≡ import_for decimal orders events references request_id now iso integration k dto db
  unfolding import_order
  import_order_in name secret key n s k dto db integration h r = rw (import_order, h) (rw r refl)

  resolve_same :
      (n s : Text) (db db' : DbOf)
      → db'.integrations ≡ db.integrations
      → resolve_integration decimal orders events references request_id now iso n s db'
        ≡ resolve_integration decimal orders events references request_id now iso n s db
  unfolding resolve_integration
  resolve_same n s db db' same = ap (λ is. or_throw (find (accepts n s) is) unauthorized) same

  -- A call that leaves the tables as they are and returns a response that is sent as this one is.
  pub record IsAnsweredAgain (response : ImportResponse Num) (before : DbOf)
      (out : DbOf × Result (ImportResponse Num)) : Type 0 where
    pub again : ImportResponse Num
    pub returned : out ≡ (before, ok again)
    pub alike : sent iso again ≡ sent iso response

  abbrev Repeats :
      Option Text
      → Option Text
      → Option Text
      → InboundIntegrationOrderDto Num
      → ImportResponse Num
      → DbOf × Result (ImportResponse Num)
      → Type 0
  Repeats name secret key dto response out =
      out.1 ≡ ok response
      → IsAnsweredAgain response out.0 (
          import_order decimal orders events references request_id now iso name secret key dto
            out.0)

  -- Where the database gives new events new identifiers: when importOrder returns a response, then for the
  -- same headers, whatever the body, it returns a response again that is sent as the first one is: the dates,
  -- which the second has as text, are printed alike, and the rest is the same. The repeated call changes
  -- nothing.
  pub import_order_repeated :
      (name secret key : Option Text) (dto dto' : InboundIntegrationOrderDto Num) (db : DbOf)
      (response : ImportResponse Num)
      → IsPrimaryKey events (λ e. e.id)
      → (import_order decimal orders events references request_id now iso name secret key dto db).1
        ≡ ok response
      → IsAnsweredAgain response
          (import_order decimal orders events references request_id now iso name secret key dto
            db).0
          (import_order decimal orders events references request_id now iso name secret key dto'
            (import_order decimal orders events references request_id now iso name secret key dto
              db).0)
  unfolding import_order
  import_order_repeated name secret key dto dto' db response fresh =
      elim (Result-cases
        (read_headers decimal orders events references request_id now iso name secret key)) [
          | inl (e, h) ↦
              let same : (db, err e)
                  ≡ import_order decimal orders events references request_id now iso name secret key
                      dto db =
                rw (import_order, h) in
              subst (Repeats name secret key dto' response) same (λ failed. absurd (differ failed))
          | inr ((n, s, k), h) ↦
              elim (Result-cases
                (resolve_integration decimal orders events references request_id now iso n s db)) [
                  | inl (e, r) ↦
                      let same : (db, err e)
                          ≡ import_order decimal orders events references request_id now iso name
                              secret key dto db =
                        rw (import_order, h) (rw r refl) in
                      subst (Repeats name secret key dto' response) same
                        (λ failed. absurd (differ failed))
                  | inr (integration, r) ↦
                      let out =
                        import_for decimal orders events references request_id now iso integration k
                          dto db in
                      let same = import_order_in name secret key n s k dto db integration h r in
                      subst (Repeats name secret key dto' response) (sym same) λ returned.
                        let (kept, (e, found, (again, cached, alike))) =
                          import_for-Answers integration k dto db response fresh returned in
                        record {
                          again = again;
                          returned =
                              import_order_in name secret key n s k dto' out.0 integration h
                                (resolve_same n s db out.0 kept ∙ r)
                              ∙ import_for_repeated integration k dto' out.0 e again found cached;
                          alike = alike;
                        }
                ]
        ]
    where
      differ : {e : Error} → err e ≡ ok response → ⊥
      differ e = cc
