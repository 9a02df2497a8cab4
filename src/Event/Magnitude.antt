-- ===== src/Event/Magnitude.antt =====
-- The whole numbers among the values `s * 2 ^ e / 2 ^ k`, as `fract` and `abs` of an f64 see them
-- (`validate_number`, src/model.rs).
use native.Mathlib.Nat.{
  pow-zero, pow-suc, one-le-pow, mul_comm, mul_assoc, mul-mod_left, div-add-mod',
  eq_of_mul-eq-mul_right, mul-le-mul_right, le_of_mul-le-mul_right,
}
use contextmesh_rs.Common.{
  ℕ, zero, suc, ◌+◌, ◌-◌, ◌*◌, ◌/◌, ◌%◌, ◌^◌, ◌<◌, ◌≤◌, ◌≡◌, refl, ap, sym, ◌∙◌, subst, ◌↔◌, inl,
  inr, Bool, true, false, arith, ◌==◌, ==_iff, ltb, leb, if◌then◌else◌, Bool-cases,
}

-- The value has no fraction.
abbrev pub is_whole : ℕ → ℕ → ℕ → Bool
is_whole k e s = if leb k e then true else s % 2 ^ (k - e) == 0

-- The value is greater than `most`.
abbrev pub is_beyond : ℕ → ℕ → ℕ → ℕ → Bool
is_beyond most k e s = if leb k e then ltb most (s * 2 ^ (e - k)) else ltb (most * 2 ^ (k - e)) s

pow_sum : (a b : ℕ) → 2 ^ (a + b) ≡ 2 ^ a * 2 ^ b
pow_sum a zero =
    let same : a + 0 ≡ a = omega arith in ap (λ x. 2 ^ x) same ∙ rw (pow-zero 2) (omega arith)
pow_sum a (suc b) =
    let next : a + suc b ≡ suc (a + b) = omega arith in
    ap (λ x. 2 ^ x) next
    ∙ pow-suc 2 (a + b)
    ∙ ap (λ x. x * 2) (pow_sum a b)
    ∙ mul_assoc (2 ^ a) (2 ^ b) 2
    ∙ ap (λ x. 2 ^ a * x) (sym (pow-suc 2 b))

pow_pos : (a : ℕ) → 0 < 2 ^ a
pow_pos a = let least = one-le-pow a 2 (omega arith) in omega (arith, least)

shift : (s a b : ℕ) → s * 2 ^ (a + b) ≡ s * 2 ^ b * 2 ^ a
shift s a b =
    ap (λ x. s * x) (pow_sum a b ∙ mul_comm (2 ^ a) (2 ^ b)) ∙ sym (mul_assoc s (2 ^ b) (2 ^ a))

high_iff :
    (most k d s : ℕ)
    → (ltb most (s * 2 ^ d) ≡ false) ↔ ((n : ℕ) → n * 2 ^ k ≡ s * 2 ^ (k + d) → n ≤ most)
high_iff most k d s = (
  λ fits n h.
      let same : n ≡ s * 2 ^ d =
        eq_of_mul-eq-mul_right (2 ^ k) (pow_pos k) n (s * 2 ^ d) (h ∙ shift s k d) in
      subst (λ x. x ≤ most) (sym same) (ground (arith, fits)),
  λ all. let most_of = all (s * 2 ^ d) (sym (shift s k d)) in ground (arith, most_of),
)

low_iff :
    (most e d s : ℕ)
    → ((s % 2 ^ d == 0) ≡ true → ltb (most * 2 ^ d) s ≡ false)
      ↔ ((n : ℕ) → n * 2 ^ (e + d) ≡ s * 2 ^ e → n ≤ most)
low_iff most e d s = (
  λ fits n h.
      let same : n * 2 ^ d ≡ s =
        eq_of_mul-eq-mul_right (2 ^ e) (pow_pos e) (n * 2 ^ d) s (sym (shift n e d) ∙ h) in
      let rest : s % 2 ^ d ≡ 0 = ap (λ x. x % 2 ^ d) (sym same) ∙ mul-mod_left n (2 ^ d) in
      let bound = fits ((==_iff (s % 2 ^ d) 0).1 rest) in
      let small : s ≤ most * 2 ^ d = ground (arith, bound) in
      le_of_mul-le-mul_right (subst (λ x. x ≤ most * 2 ^ d) (sym same) small) (pow_pos d),
  λ all whole.
      let rest : s % 2 ^ d ≡ 0 = (==_iff (s % 2 ^ d) 0).0 whole in
      let quotient : s / 2 ^ d * 2 ^ d ≡ s = omega (arith, rest, div-add-mod' s (2 ^ d)) in
      let few = all (s / 2 ^ d) (shift (s / 2 ^ d) e d ∙ ap (λ x. x * 2 ^ e) quotient) in
      let bound = mul-le-mul_right (2 ^ d) few in
      let small : s ≤ most * 2 ^ d = subst (λ x. x ≤ most * 2 ^ d) quotient bound in
      ground (arith, small),
)

-- Where the value is whole it is not beyond, exactly when every natural number that is the value is at most `most`.
pub beyond_iff :
    (most k e s : ℕ)
    → (is_whole k e s ≡ true → is_beyond most k e s ≡ false)
      ↔ ((n : ℕ) → n * 2 ^ k ≡ s * 2 ^ e → n ≤ most)
beyond_iff most k e s = elim (Bool-cases (leb k e)) [
  | inl high ↦
      let sum : k + (e - k) ≡ e = ground (arith, high) in
      let (there, back) = high_iff most k (e - k) s in
      rw high (
        λ fits. subst (λ x. (n : ℕ) → n * 2 ^ k ≡ s * 2 ^ x → n ≤ most) sum (there (fits refl)),
        λ all _. back (subst (λ x. (n : ℕ) → n * 2 ^ k ≡ s * 2 ^ x → n ≤ most) (sym sum) all),
      )
  | inr low ↦
      let sum : e + (k - e) ≡ k = ground (arith, low) in
      let (there, back) = low_iff most e (k - e) s in
      rw low (
        λ fits. subst (λ x. (n : ℕ) → n * 2 ^ x ≡ s * 2 ^ e → n ≤ most) sum (there fits),
        λ all. back (subst (λ x. (n : ℕ) → n * 2 ^ x ≡ s * 2 ^ e → n ≤ most) (sym sum) all),
      )
]
