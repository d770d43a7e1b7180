-- ===== src/Routing/StoredLaws.antt =====
-- What backend/src/modules/routing/routing.service.ts reads back of what it has stored of a provider's
-- answer.
use logistics_center.Base.{
  ℕ, ◌≡◌, refl, ap, Bool, true, Option, none, some, List, [], ◌∷◌, get_or, ◌&&◌, all, &&_iff,
}
use logistics_center.Base.Text.{Text}
use logistics_center.Values.{str}
use logistics_center.Compensation.Ecma.{Ecma}
use logistics_center.Compensation.RuleConfig.{read_number}
use logistics_center.Routing.Provider.{
  RouteTransportMode, driving, walking, cycling, Coordinates, RouteOptions, RouteResult,
}
use logistics_center.Routing.Stored.{
  text_of_mode, read_mode, read_boolean, read_date, read_text, text_or_null, items, iso_or_null,
  coordinates_json, serialize_optimization_data, extract_stored_route_options,
  read_coordinates_items, read_coordinates_array, route_totals,
}

module _ (js : Ecma) (text_of : ℕ → Text) where
  open js use {N}

  read-text_of_mode : (m : RouteTransportMode) → read_mode {N = N} (str (text_of_mode m)) ≡ some m
  unfolding read_mode text_of_mode
  read-text_of_mode driving = refl
  read-text_of_mode walking = refl
  read-text_of_mode cycling = refl

  read-text_or_null : (t : Option Text) → read_text {N = N} (text_or_null t) ≡ t
  unfolding read_text
  read-text_or_null none = refl
  read-text_or_null (some s) = refl

  read-iso_or_null :
      (parse_date : Text → Option ℕ) (t : Option ℕ)
      → ((d : ℕ) → parse_date (js.to_iso_string d) ≡ some d)
      → read_date parse_date (iso_or_null js text_of t) ≡ t
  unfolding read_date
  read-iso_or_null parse_date none h = refl
  read-iso_or_null parse_date (some d) h = h d

  -- Where dates are read as they are printed, the options that are stored with a route are read back
  -- as they were, with the route's date for a departure time that is missing.
  pub extract-serialize_optimization_data :
      (parse_date : Text → Option ℕ) (route_result : RouteResult N) (options : RouteOptions)
      (route_date : ℕ)
      → ((d : ℕ) → parse_date (js.to_iso_string d) ≡ some d)
      → extract_stored_route_options js text_of parse_date
          (serialize_optimization_data js text_of route_result options)
          route_date
        ≡ record options { departure_time = some (get_or options.departure_time route_date) }
  unfolding extract_stored_route_options serialize_optimization_data read_boolean
  extract-serialize_optimization_data parse_date route_result options route_date h =
      rw (read-text_of_mode options.mode) (
        rw (read-text_or_null options.locale)
          (rw (read-iso_or_null parse_date options.departure_time h) refl))

  abbrev pub is_finite_place : Coordinates N → Bool
  is_finite_place c = js.is_finite c.latitude && js.is_finite c.longitude

  read-coordinates :
      (cs : List (Coordinates N))
      → all is_finite_place cs ≡ true
      → read_coordinates_items js text_of (items (coordinates_json js text_of) cs) ≡ cs
  unfolding read_coordinates_items read_number
  read-coordinates [] h = refl
  read-coordinates (c ∷ cs) h =
      let (here, later) = (&&_iff (is_finite_place c) (all is_finite_place cs)).0 h in
      let (first, second) = (&&_iff (js.is_finite c.latitude) (js.is_finite c.longitude)).0 here in
      rw first (rw second (ap (λ rest. c ∷ rest) (read-coordinates cs later)))

  -- Where the numbers of a provider's answer are finite, a route shows its totals, its provider and
  -- its polyline as the provider gave them.
  pub route_totals-serialize_optimization_data :
      (route_result : RouteResult N) (options : RouteOptions)
      → js.is_finite route_result.distance_meters ≡ true
      → js.is_finite route_result.duration_seconds ≡ true
      → all is_finite_place route_result.polyline ≡ true
      → route_totals js text_of (serialize_optimization_data js text_of route_result options)
        ≡ record {
          total_distance_meters = some route_result.distance_meters;
          total_duration_seconds = some route_result.duration_seconds;
          provider = some route_result.provider;
          polyline = route_result.polyline;
        }
  unfolding route_totals serialize_optimization_data read_number read_text read_coordinates_array
  route_totals-serialize_optimization_data route_result options h k l =
      rw h (rw k (rw (read-coordinates route_result.polyline l) refl))
