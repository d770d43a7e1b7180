-- ===== src/Compensation/Ecma.antt =====
-- What backend/src/modules/compensation does with JavaScript's numbers, as an interface: they are
-- doubles, which the model does not fix. Also the text of a date.
use logistics_center.Base.{ℕ, ◌≡◌, Bool, true, false}
use logistics_center.Base.Text.{Text}

pub record Ecma : Type 1 where
  pub N : Type 0
  pub of_ℕ : ℕ → N
  pub add : N → N → N
  pub sub : N → N → N
  pub mul : N → N → N
  pub neg : N → N
  -- `value / 1000`
  pub thousandth : N → N
  -- `Math.max(left, right)`
  pub max : N → N → N
  -- `left < right`, `left >= right` and `left !== right`
  pub lt : N → N → Bool
  pub ge : N → N → Bool
  pub ne : N → N → Bool
  pub is_finite : N → Bool
  -- `Number(value.toFixed(2))` and `Number(value.toFixed(3))`
  pub to_fixed2 : N → N
  pub to_fixed3 : N → N
  -- `Number(text)`
  pub parse : Text → N
  -- `date.toISOString()`
  pub to_iso_string : ℕ → Text

-- What the theorems take from IEEE 754 and from ECMAScript.
pub record IsEcma (js : Ecma) : Type 0 where
  -- `0 < value` rules out `value < 0`, and `value < value`.
  pub lt_asym : (a b : js.N) → js.lt a b ≡ true → js.lt b a ≡ false
  -- `Math.max(0, value)` is not negative, and `toFixed` makes no number negative that is not.
  pub max_nonneg : (a : js.N) → js.lt (js.max (js.of_ℕ 0) a) (js.of_ℕ 0) ≡ false
  pub to_fixed2_nonneg :
      (a : js.N) → js.lt a (js.of_ℕ 0) ≡ false → js.lt (js.to_fixed2 a) (js.of_ℕ 0) ≡ false
  -- A difference of `b` and a smaller `a` is not negative.
  pub sub_nonneg : (a b : js.N) → js.lt a b ≡ true → js.lt (js.sub b a) (js.of_ℕ 0) ≡ false
  pub zero_nonneg : js.lt (js.of_ℕ 0) (js.of_ℕ 0) ≡ false
  -- The product of numbers that are not negative is not negative.
  pub mul_nonneg :
      (a b : js.N)
      → js.lt a (js.of_ℕ 0) ≡ false
      → js.lt b (js.of_ℕ 0) ≡ false
      → js.lt (js.mul a b) (js.of_ℕ 0) ≡ false
  pub of_ℕ_nonneg : (n : ℕ) → js.lt (js.of_ℕ n) (js.of_ℕ 0) ≡ false
  -- Rounding twice to two digits is rounding once.
  pub to_fixed2_idem : (a : js.N) → js.to_fixed2 (js.to_fixed2 a) ≡ js.to_fixed2 a
