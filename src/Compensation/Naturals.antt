-- ===== src/Compensation/Naturals.antt =====
-- Natural numbers in the place of JavaScript's, for runs of the code on samples.
use logistics_center.Base.{ℕ, ◌+◌, ◌-◌, ◌*◌, ◌/◌, true, not, ltb, leb, ◌==◌, if◌then◌else◌}
use logistics_center.Base.Text.{codes}
use logistics_center.Compensation.Ecma.{Ecma}

abbrev pub naturals : Ecma
naturals = record {
  N = ℕ;
  of_ℕ = λ n. n;
  add = λ a b. a + b;
  sub = λ a b. a - b;
  mul = λ a b. a * b;
  neg = λ a. 0;
  thousandth = λ a. a / 1000;
  max = λ a b. if ltb a b then b else a;
  lt = ltb;
  ge = λ a b. leb b a;
  ne = λ a b. not (a == b);
  is_finite = λ a. true;
  to_fixed2 = λ a. a;
  to_fixed3 = λ a. a;
  parse = λ t. 0;
  to_iso_string = λ t. codes "1970-01-01T00:00:00.000Z";
}
