-- ===== src/Heat/Request.antt =====
-- The request of a heat analysis: its idempotency key (app/services/heat.py) and its translation to
-- the provider's shape (app/integrations/fortyguard/client.py).
use coolproof.Base.{
  ℕ, ℤ, ◌-◌, String, str_eq, ends_with, take_text, text_length, Bool, false, Option, none, some,
  List, [], ◌∷◌, pos, if◌then◌else◌,
}
use coolproof.Json.{
  Value, null, int, str, arr, obj, cons, nil, Fields, end, get, dict, dict_or_empty, holds,
  or_value,
}
use coolproof.Platform.{Platform}
use coolproof.Failure.{Result, ok, err, forty_guard_error, value_error, ◌>>=◌}

abbrev pub parameters_of : Fields → Fields
parameters_of payload = dict_or_empty (get "parameters" payload)

-- `value(*names)`: the first name that the request has, or that its parameters have.
unfoldable pub first_value : Fields → Fields → List String → Value
unfolding get
first_value request params [] = null
first_value request params (name ∷ names) =
    let rest = first_value request params names in
    elim (get name request) [
      | some v ↦ v
      | none ↦ elim (get name params) [ some v ↦ v | none ↦ rest ]
    ]

-- The query that the idempotency key stands for.
unfoldable pub canonical : Fields → Fields
unfolding first_value
canonical request =
    let value = first_value request (parameters_of request) in
    dict (
      ("polygon", value ("polygon" ∷ "geometry" ∷ []))
      ∷ ("datetime", value ("datetime" ∷ "date" ∷ "timestamp" ∷ "time" ∷ []))
      ∷ ("analytic_type", value ("analytic_type" ∷ "analytic" ∷ "analysis_type" ∷ []))
      ∷ ("threshold", value ("threshold" ∷ "threshold_c" ∷ []))
      ∷ ("granularity", value ("granularity" ∷ "resolution" ∷ "resolution_m" ∷ []))
      ∷ [])

-- `analysis_idempotency_key(zone_id, request)`; `digest` is the SHA-256 of the dict's JSON text.
unfoldable pub analysis_idempotency_key : (Fields → String) → ℕ → Fields → String
unfolding canonical
analysis_idempotency_key digest zone_id request = digest (canonical request)

-- `isinstance(geometry, dict)` on the first geometry that holds.
abbrev pub geometry_of : Option Value → Result Fields
geometry_of (some (obj geometry)) = ok geometry
geometry_of _ =
    err (forty_guard_error "fortyguard_invalid_request" "A polygon geometry is required" false)

abbrev pub is_collection : Option Value → Bool
is_collection (some (str kind)) = str_eq kind "FeatureCollection"
is_collection _ = false

unfoldable pub polygon_aoi : Fields → Fields
unfolding get
polygon_aoi geometry =
    if is_collection (get "type" geometry)
    then geometry
    else dict (
        ("type", str "FeatureCollection")
        ∷ (
          "features",
          arr (
              cons
                (obj (
                  dict (
                    ("type", str "Feature")
                    ∷ ("properties", obj end)
                    ∷ ("geometry", obj geometry)
                    ∷ [])))
                nil),
        )
        ∷ [])

-- The hour of the request, as `date().isoformat()` and `strftime("%H:%M")`.
abbrev pub date_time_of : String × String → Option Value → Fields
date_time_of now (some (obj d)) = d
date_time_of (date, time) _ =
    dict (("start_date", str date) ∷ ("start_time", str time) ∷ ("filter_type", int (pos 1)) ∷ [])

abbrev pub is_set : Option Value → Bool
is_set none = false
is_set (some v) = holds v

abbrev pub analytic_type_of : Option Value → Option Value → String
analytic_type_of (some (str s)) exceedance = s
analytic_type_of _ exceedance = if is_set exceedance then "exceedance" else "tcm"

abbrev pub or_default : Value → Option Value → Value
or_default v none = v
or_default v (some w) = w

abbrev pub as_integer : Option ℤ → Result Value
as_integer (some n) = ok (int n)
as_integer none = err (value_error "invalid literal for int()")

unfoldable pub metres : Platform → Value → Result Value
unfolding ends_with
metres p (str s) =
    if ends_with "m" s
    then as_integer (p.parse_int (take_text (text_length s - 1) s))
    else ok (str s)
metres p v = ok v

abbrev pub with_key : String → Fields → List (String × Value) → List (String × Value)
with_key key d rest = elim (get key d) [ some v ↦ (key, v) ∷ rest | none ↦ rest ]

module _ (p : Platform) where
  -- `_heatmap_payload(payload)`
  unfoldable pub heatmap_payload : String × String → Fields → Result Fields
  unfolding polygon_aoi metres get
  heatmap_payload now payload =
      geometry_of (or_value (get "polygon_aoi" payload) (get "geometry" payload)) >>= λ geometry.
      let parameters = parameters_of payload in
      metres p (
        or_default (or_default (int (pos 100)) (get "resolution" parameters))
          (get "granularity" parameters))
      >>= λ granularity. ok (
          dict (
            ("polygon_aoi", obj (polygon_aoi geometry))
            ∷ ("date_time", obj (date_time_of now (get "date_time" parameters)))
            ∷ ("granularity", granularity)
            ∷ (
              "analytic_type",
              str (
                  analytic_type_of (get "analytic_type" parameters)
                    (get "include_exceedance" parameters)),
            )
            ∷ with_key "threshold" parameters (with_key "direction" parameters [])))
