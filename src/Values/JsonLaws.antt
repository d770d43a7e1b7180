-- ===== src/Values/JsonLaws.antt =====
-- Reading an object that `toInputJsonValue` of backend/src has made.
use logistics_center.Base.{◌≡◌, refl, ℕ, inl, inr, false, Bool-cases, ap, ◌∙◌}
use logistics_center.Base.Text.{Text, text_eq}
use logistics_center.Values.{
  Value, Fields, undefined, null, bool, num, str, date, arr, obj, end, field, get,
}
use logistics_center.Values.Json.{add_entry, to_input_json_value, to_input_json_fields}

module _ {N : Type 0} where
  pub get-add_entry :
      (key k : Text) (w converted : Value N) (rest : Fields N)
      → text_eq k key ≡ false
      → get key (add_entry k w converted rest) ≡ get key rest
  get-add_entry key k undefined converted rest h = refl
  get-add_entry key k null converted rest h = rw h refl
  get-add_entry key k (bool b) converted rest h = rw h refl
  get-add_entry key k (num n) converted rest h = rw h refl
  get-add_entry key k (str s) converted rest h = rw h refl
  get-add_entry key k (date t) converted rest h = rw h refl
  get-add_entry key k (arr xs) converted rest h = rw h refl
  get-add_entry key k (obj fs) converted rest h = rw h refl

  -- A text stays.
  pub get-json_text :
      (iso : ℕ → Text) (key s : Text) (fs : Fields N)
      → get key fs ≡ str s
      → get key (to_input_json_fields iso fs) ≡ str s
  unfolding to_input_json_fields
  get-json_text iso key s end h = h
  get-json_text iso key s (field k w fs) h = elim (Bool-cases (text_eq k key)) [
    | inl t ↦
        let same : w ≡ str s = rw t at h in
        ap (λ v. get key (add_entry k v (to_input_json_value iso v) (to_input_json_fields iso fs)))
          same
        ∙ rw t refl
    | inr f ↦
        let later : get key fs ≡ str s = rw f at h in
        get-add_entry key k w (to_input_json_value iso w) (to_input_json_fields iso fs) f
        ∙ get-json_text iso key s fs later
  ]
