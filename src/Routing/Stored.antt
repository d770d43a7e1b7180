-- ===== src/Routing/Stored.antt =====
-- What backend/src/modules/routing/routing.service.ts stores of a provider's answer in
-- `optimization_data`, and what it reads back. `text_of` is the text of an identifier, and `parse_date`
-- is `new Date(text)`, `none` where the time is not a number.
use logistics_center.Base.{
  ℕ, Bool, false, Option, none, some, List, [], ◌∷◌, ◌++◌, get_or, if◌then◌else◌,
}
use logistics_center.Base.Text.{Text, codes, text_eq}
use logistics_center.Values.{
  Value, Items, Fields, undefined, null, bool, num, str, arr, obj, nil, cons, end, field, get,
  plain_object,
}
use logistics_center.Values.Json.{to_input_json_value}
use logistics_center.Compensation.Ecma.{Ecma}
use logistics_center.Compensation.RuleConfig.{read_number}
use logistics_center.Routing.Provider.{
  RouteTransportMode, driving, walking, cycling, PointId, courier_point, point, Coordinates,
  RouteOptions, RouteStop, RouteLeg, RouteResult,
}

unfoldable pub text_of_mode : RouteTransportMode → Text
text_of_mode driving = codes "driving"
text_of_mode walking = codes "walking"
text_of_mode cycling = codes "cycling"

abbrev pub mode_of_text : Text → Option RouteTransportMode
mode_of_text t =
    if text_eq t (codes "driving")
    then some driving
    else if text_eq t (codes "walking")
    then some walking
    else if text_eq t (codes "cycling")
    then some cycling
    else none

module _ {N : Type 0} where
  unfoldable pub read_mode : Value N → Option RouteTransportMode
  read_mode (str s) = mode_of_text s
  read_mode _ = none

  unfoldable pub read_boolean : Value N → Option Bool
  read_boolean (bool b) = some b
  read_boolean _ = none

  -- `readString` of routing.service.ts, which keeps blank texts
  unfoldable pub read_text : Value N → Option Text
  read_text (str s) = some s
  read_text _ = none

  -- `options?.[key]`, and `point?.[key]`
  abbrev pub property : Text → Option (Fields N) → Value N
  property key none = undefined
  property key (some fs) = get key fs

  unfoldable pub read_date : (Text → Option ℕ) → Value N → Option ℕ
  read_date parse_date (str s) = parse_date s
  read_date parse_date _ = none

  abbrev pub text_or_null : Option Text → Value N
  text_or_null none = null
  text_or_null (some s) = str s

  -- `list.map(…)` as JSON
  abbrev pub items : {A : Type 0} → (A → Value N) → List A → Items N
  items f [] = nil
  items f (x ∷ xs) = cons (f x) (items f xs)

module _ (js : Ecma) (text_of : ℕ → Text) where
  open js use {N}

  abbrev pub point_text : PointId → Text
  point_text (courier_point id) = codes "courier:" ++ text_of id
  point_text (point id) = text_of id

  -- `date?.toISOString() ?? null`
  abbrev pub iso_or_null : Option ℕ → Value N
  iso_or_null none = null
  iso_or_null (some t) = str (js.to_iso_string t)

  abbrev pub coordinates_json : Coordinates N → Value N
  coordinates_json c =
      obj (
        field (codes "latitude") (num c.latitude) (field (codes "longitude") (num c.longitude) end))

  abbrev pub stop_json : RouteStop → Value N
  stop_json stop = obj (
      field (codes "pointId") (str (point_text stop.point_id)) (
        field (codes "sequence") (num (js.of_ℕ stop.sequence))
          (field (codes "eta") (iso_or_null stop.eta) end)))

  abbrev pub leg_json : RouteLeg N → Value N
  leg_json leg = obj (
      field (codes "fromPointId") (str (point_text leg.from_point_id)) (
        field (codes "toPointId") (str (point_text leg.to_point_id)) (
          field (codes "distanceMeters") (num leg.distance_meters) (
            field (codes "durationSeconds") (num leg.duration_seconds)
              (field (codes "geometry") (arr (items coordinates_json leg.geometry)) end)))))

  abbrev pub metadata_json : Option (Fields N) → Value N
  metadata_json none = to_input_json_value js.to_iso_string null
  metadata_json (some fs) = to_input_json_value js.to_iso_string (obj fs)

  abbrev pub options_json : RouteOptions → Fields N
  options_json options = field (codes "mode") (str (text_of_mode options.mode)) (
      field (codes "optimizeWaypoints") (bool options.optimize_waypoints) (
        field (codes "avoidTolls") (bool options.avoid_tolls) (
          field (codes "avoidUnpaved") (bool options.avoid_unpaved) (
            field (codes "departureTime") (iso_or_null options.departure_time) (
              field (codes "returnToStart") (bool options.return_to_start)
                (field (codes "locale") (text_or_null options.locale) end))))))

  unfoldable pub serialize_optimization_data : RouteResult N → RouteOptions → Value N
  serialize_optimization_data route_result options = obj (
      field (codes "provider") (str route_result.provider) (
        field (codes "distanceMeters") (num route_result.distance_meters) (
          field (codes "durationSeconds") (num route_result.duration_seconds) (
            field (codes "polyline") (arr (items coordinates_json route_result.polyline)) (
              field (codes "orderedPointIds")
                (arr (items (λ p. str (point_text p.id)) route_result.ordered_points))
                (field (codes "stops") (arr (items stop_json route_result.stops)) (
                  field (codes "legs") (arr (items leg_json route_result.legs)) (
                    field (codes "metadata") (metadata_json route_result.metadata)
                      (field (codes "options") (obj (options_json options)) end)))))))))

  abbrev pub stored_options : Option (Fields N) → Option (Fields N)
  stored_options none = none
  stored_options (some fs) = plain_object (get (codes "options") fs)

  abbrev pub route_options_of : (Text → Option ℕ) → Option (Fields N) → ℕ → RouteOptions
  route_options_of parse_date options route_date = record {
    mode = get_or (read_mode (property (codes "mode") options)) driving;
    optimize_waypoints = get_or (read_boolean (property (codes "optimizeWaypoints") options)) false;
    avoid_tolls = get_or (read_boolean (property (codes "avoidTolls") options)) false;
    avoid_unpaved = get_or (read_boolean (property (codes "avoidUnpaved") options)) false;
    departure_time =
        some (get_or (read_date parse_date (property (codes "departureTime") options)) route_date);
    return_to_start = get_or (read_boolean (property (codes "returnToStart") options)) false;
    locale = read_text (property (codes "locale") options);
  }

  unfoldable pub extract_stored_route_options : (Text → Option ℕ) → Value N → ℕ → RouteOptions
  unfolding read_mode read_boolean read_date read_text
  extract_stored_route_options parse_date optimization_data route_date =
      route_options_of parse_date (stored_options (plain_object optimization_data)) route_date

  -- An entry of the list that `readCoordinatesArray` maps and filters.
  abbrev pub add_coordinates : Option N → Option N → List (Coordinates N) → List (Coordinates N)
  add_coordinates (some latitude) (some longitude) rest =
      record { latitude = latitude; longitude = longitude } ∷ rest
  add_coordinates _ _ rest = rest

  unfoldable pub read_coordinates_items : Items N → List (Coordinates N)
  read_coordinates_items nil = []
  read_coordinates_items (cons entry rest) =
      add_coordinates (read_number js (property (codes "latitude") (plain_object entry)))
        (read_number js (property (codes "longitude") (plain_object entry)))
        (read_coordinates_items rest)

  unfoldable pub read_coordinates_array : Value N → List (Coordinates N)
  unfolding read_coordinates_items
  read_coordinates_array (arr xs) = read_coordinates_items xs
  read_coordinates_array _ = []

  -- What `mapRoute` reads of the stored data.
  pub record RouteTotals : Type 0 where
    pub total_distance_meters : Option N
    pub total_duration_seconds : Option N
    pub provider : Option Text
    pub polyline : List (Coordinates N)

  unfoldable pub route_totals : Value N → RouteTotals
  unfolding read_text read_coordinates_array
  route_totals optimization_data =
      let fs = plain_object optimization_data in
      record {
        total_distance_meters = read_number js (property (codes "distanceMeters") fs);
        total_duration_seconds = read_number js (property (codes "durationSeconds") fs);
        provider = read_text (property (codes "provider") fs);
        polyline = read_coordinates_array (property (codes "polyline") fs);
      }
