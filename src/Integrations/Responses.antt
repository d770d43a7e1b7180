-- ===== src/Integrations/Responses.antt =====
-- The responses of `importOrder` of backend/src/modules/integrations/integrations.service.ts as the caller
-- reads them: `JSON.stringify` prints a date as `date.toISOString()`, here `iso`.
use logistics_center.Base.{
  ℕ, ◌≡◌, refl, ap, subst, ◌∙◌, none, some, Option, ok, err, ok_injective, conflict, Bool, true,
  false, truthy, if◌then◌else◌, arith,
}
use logistics_center.Base.Text.{Text}
use logistics_center.Values.{Value, null, str, date}
use logistics_center.Values.Json.{to_input_json_value}
use logistics_center.Orders.Columns.{Order}
use logistics_center.Integrations.Rows.{
  InboundImportResult, ImportResponse, date_or_null, to_input_json_response, with_external_id,
  map_integration_order_response,
}

module _ {Num : Type 0} where
  -- A `Date` or `null`.
  pub data IsDate : Value Num → Type 0 where
    no_date : IsDate null
    a_date : (time : ℕ) → IsDate (date time)

  pub record HasDates (r : ImportResponse Num) : Type 0 where
    pub scheduled_date : IsDate r.order.scheduled_date
    pub time_window_from : IsDate r.order.time_window_from
    pub time_window_to : IsDate r.order.time_window_to

  date_or_null-IsDate : (t : Option ℕ) → IsDate (date_or_null t)
  date_or_null-IsDate none = no_date
  date_or_null-IsDate (some time) = a_date time

  -- A date is printed, and anything else is as it is.
  unfoldable pub printed : (ℕ → Text) → Value Num → Value Num
  printed iso (date time) = str (iso time)
  printed iso v = v

  -- The response as it is sent.
  abbrev pub sent : (ℕ → Text) → ImportResponse Num → ImportResponse Num
  sent iso r = record r {
    order = record r.order {
      scheduled_date = printed iso r.order.scheduled_date;
      time_window_from = printed iso r.order.time_window_from;
      time_window_to = printed iso r.order.time_window_to;
    };
  }

  printed-to_input_json_value :
      (iso : ℕ → Text) (v : Value Num)
      → IsDate v
      → printed iso (to_input_json_value iso v) ≡ printed iso v
  unfolding printed to_input_json_value
  printed-to_input_json_value iso _ no_date = refl
  printed-to_input_json_value iso _ (a_date time) = refl

  -- A response with these dates.
  abbrev with_dates : ImportResponse Num → Value Num → Value Num → Value Num → ImportResponse Num
  with_dates r scheduled from to = record r {
    order = record r.order {
      scheduled_date = scheduled;
      time_window_from = from;
      time_window_to = to;
    };
  }

  -- The JSON of a response is sent as the response is.
  pub sent-to_input_json_response :
      (iso : ℕ → Text) (r : ImportResponse Num)
      → HasDates r
      → sent iso (to_input_json_response iso r) ≡ sent iso r
  sent-to_input_json_response iso r dates =
      let stored = λ (v : Value Num). printed iso (to_input_json_value iso v) in
      let scheduled = r.order.scheduled_date in
      let from = r.order.time_window_from in
      let to = r.order.time_window_to in
      ap (λ v. with_dates r v (stored from) (stored to))
        (printed-to_input_json_value iso scheduled dates.scheduled_date)
      ∙ ap (λ v. with_dates r (printed iso scheduled) v (stored to))
          (printed-to_input_json_value iso from dates.time_window_from)
      ∙ ap (λ v. with_dates r (printed iso scheduled) (printed iso from) v)
          (printed-to_input_json_value iso to dates.time_window_to)

  accepted :
      (b : Bool) (x r : ImportResponse Num) → (if b then ok x else err conflict) ≡ ok r → x ≡ r
  accepted true x r h = ok_injective x r h
  accepted false x r h = absurd (ground arith)

  of_row :
      {Decimal : Type 0} (external_id : Option ℕ) (key name : Text) (result : InboundImportResult)
      (o : Order Num Decimal) (r : ImportResponse Num)
      → with_external_id external_id key name result o ≡ ok r
      → HasDates r
  of_row none key name result o r h = absurd (ground arith)
  of_row (some external_id) key name result o r h =
      subst HasDates (accepted (truthy (some external_id)) _ r h) (record {
        scheduled_date = date_or_null-IsDate o.scheduled_date;
        time_window_from = date_or_null-IsDate o.time_window_from;
        time_window_to = date_or_null-IsDate o.time_window_to;
      })

  pub map_integration_order_response-HasDates :
      {Decimal : Type 0} (key name : Text) (result : InboundImportResult) (o : Order Num Decimal)
      (r : ImportResponse Num)
      → map_integration_order_response key name result o ≡ ok r
      → HasDates r
  unfolding map_integration_order_response
  map_integration_order_response-HasDates key name result o r h =
      of_row o.external_id key name result o r h
