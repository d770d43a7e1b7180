-- ===== src/Values.antt =====
-- The values of JavaScript that the code takes as `unknown` or as JSON: objects are lists of own
-- properties in order. Numbers are a type `N`, dates are milliseconds since the earliest time that a
-- `Date` can hold.
pub mod Laws
pub mod Json
pub mod JsonLaws
use logistics_center.Base.{ℕ, Bool, true, false, Option, none, some, if◌then◌else◌, List, [], ◌∷◌}
use logistics_center.Base.Text.{Text, text_eq}

mutual
  pub data Value (N : Type 0) : Type 0 where
    undefined : Value N
    null : Value N
    bool : Bool → Value N
    num : N → Value N
    str : Text → Value N
    date : ℕ → Value N
    arr : Items N → Value N
    obj : Fields N → Value N

  pub data Items (N : Type 0) : Type 0 where
    nil : Items N
    cons : Value N → Items N → Items N

  pub data Fields (N : Type 0) : Type 0 where
    end : Fields N
    field : Text → Value N → Fields N → Fields N

module _ {N : Type 0} where
  -- `object[key]`
  abbrev pub get : Text → Fields N → Value N
  get key end = undefined
  get key (field k v fs) = let rest = get key fs in if text_eq k key then v else rest

  -- `Object.hasOwn(object, key)`
  abbrev pub has_own : Text → Fields N → Bool
  has_own key end = false
  has_own key (field k v fs) = let rest = has_own key fs in if text_eq k key then true else rest

  -- `{ ...object, key: value }`, and `object.key = value`
  abbrev pub put : Text → Value N → Fields N → Fields N
  put key v end = field key v end
  put key v (field k w fs) =
      let rest = put key v fs in if text_eq k key then field k v fs else field k w rest

  -- `isPlainObject`, with the object that it lets the caller read. A date is an object too, with no
  -- properties of its own.
  abbrev pub plain_object : Value N → Option (Fields N)
  plain_object (obj fs) = some fs
  plain_object (date t) = some end
  plain_object _ = none
