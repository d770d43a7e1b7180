-- ===== src/Values/Laws.antt =====
-- Reading an object after a write.
use logistics_center.Base.{◌≡◌, inl, inr, false, if◌then◌else◌, Bool-cases, ap, ◌∙◌}
use logistics_center.Base.Text.{Text, text_eq, text_eq-eq, text_eq_refl}
use logistics_center.Values.{Value, Fields, end, field, get, put}

module _ {N : Type 0} where
  pub get-put_self : (key : Text) (v : Value N) (fs : Fields N) → get key (put key v fs) ≡ v
  get-put_self key v end = rw (text_eq_refl key)
  get-put_self key v (field k w fs) = elim (Bool-cases (text_eq k key)) [
    | inl e ↦ rw e (rw e)
    | inr e ↦ rw e (rw e (get-put_self key v fs))
  ]

  pub get-put_other :
      (key j : Text) (v : Value N) (fs : Fields N)
      → text_eq key j ≡ false
      → get j (put key v fs) ≡ get j fs
  get-put_other key j v end h = rw h
  get-put_other key j v (field k w fs) h = elim (Bool-cases (text_eq k key)) [
    | inl e ↦
        let same : k ≡ key = text_eq-eq k key e in
        let other : text_eq k j ≡ false = ap (λ x. text_eq x j) same ∙ h in rw e (rw other)
    | inr e ↦ rw e (ap (λ x. if text_eq k j then w else x) (get-put_other key j v fs h))
  ]

  pub put-put :
      (key : Text) (v w : Value N) (fs : Fields N) → put key v (put key w fs) ≡ put key v fs
  put-put key v w end = rw (text_eq_refl key)
  put-put key v w (field k u fs) = elim (Bool-cases (text_eq k key)) [
    | inl e ↦ rw e (rw e)
    | inr e ↦ rw e (rw e (ap (field k u) (put-put key v w fs)))
  ]
