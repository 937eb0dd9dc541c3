-- ===== src/System/Claims.antt =====
-- What the error codes and the conditions of system/ tell a caller of `foo`.
use cc_snippets.Prelude.{
  ℤ, pos, negsuc, zero, suc, ◌≡◌, refl, sym, ◌∙◌, inl, inr, Bool, true, false, Option, none, some,
  arith, Bool-cases, ◌≢◌, ap, ◌⊎◌,
}
use cc_snippets.System.{
  Boost, Error, type1_a, type1_b, type2_a, type2_b, Condition, type1, type2, error_value,
  condition_value, to_error, make_error_code, make_error_condition, default_error_condition,
}
use cc_snippets.System.Calls.{
  foo_code, foo_throwing, foo_result, asserts_success, asserts_failure, test_foo_classic,
  test_foo_result, is_thrown,
}
use cc_snippets.System.Laws.{Laws}

-- The condition that an error is of, if any.
unfoldable pub kind : Error → Option Condition
kind Error.success = none
kind type1_a = some type1
kind type1_b = some type1
kind type2_a = some type2
kind type2_b = some type2

unfoldable pub is_of : Condition → Option Condition → Bool
is_of c none = false
is_of Condition.success (some Condition.success) = true
is_of type1 (some type1) = true
is_of type2 (some type2) = true
is_of _ (some _) = false

module _ (b : Boost) (laws : Laws b) where
  no_match :
      (v u : ℤ)
      → default_error_condition b v ≢ b.error_condition u b.own_condition
      → b.matches (b.error_code v b.own_error) (b.error_condition u b.own_condition) ≡ false
  no_match v u d =
      elim (Bool-cases
        (b.matches (b.error_code v b.own_error) (b.error_condition u b.own_condition))) [
          | inr f ↦ f
          | inl t ↦ elim (laws.matches-only v u b.own_condition t) [
            | inl h ↦ absurd (d h)
            | inr (h, _) ↦ absurd (laws.own_error-own_condition (sym h))
          ]
        ]

  none-differs : (u : ℤ) → b.no_condition ≢ b.error_condition u b.own_condition
  none-differs u h =
      let (_, g) = laws.error_condition-injective _ _ _ _ (sym laws.no_condition_eq ∙ h) in
      laws.generic-own_condition g

  value-differs :
      (u v : ℤ) → u ≢ v → b.error_condition u b.own_condition ≢ b.error_condition v b.own_condition
  value-differs u v n h = let (e, _) = laws.error_condition-injective _ _ _ _ h in n e

  -- The code of an enumerator matches a condition of the library exactly when the enumerator is of
  -- that condition: type1 for the two errors of type 1, type2 for the two of type 2; the code of
  -- success matches none of them, not even that of success.
  pub matches-make :
      (e : Error) (c : Condition)
      → b.matches (make_error_code b e) (make_error_condition b c) ≡ is_of c (kind e)
  unfolding make_error_code make_error_condition error_value condition_value kind is_of
      default_error_condition to_error
  matches-make Error.success Condition.success = no_match _ _ (none-differs _)
  matches-make Error.success type1 = no_match _ _ (none-differs _)
  matches-make Error.success type2 = no_match _ _ (none-differs _)
  matches-make type1_a Condition.success = no_match _ _ (value-differs _ _ (λ h. ground arith))
  matches-make type1_a type1 = laws.matches-default _ _ _ refl
  matches-make type1_a type2 = no_match _ _ (value-differs _ _ (λ h. ground arith))
  matches-make type1_b Condition.success = no_match _ _ (value-differs _ _ (λ h. ground arith))
  matches-make type1_b type1 = laws.matches-default _ _ _ refl
  matches-make type1_b type2 = no_match _ _ (value-differs _ _ (λ h. ground arith))
  matches-make type2_a Condition.success = no_match _ _ (value-differs _ _ (λ h. ground arith))
  matches-make type2_a type1 = no_match _ _ (value-differs _ _ (λ h. ground arith))
  matches-make type2_a type2 = laws.matches-default _ _ _ refl
  matches-make type2_b Condition.success = no_match _ _ (value-differs _ _ (λ h. ground arith))
  matches-make type2_b type1 = no_match _ _ (value-differs _ _ (λ h. ground arith))
  matches-make type2_b type2 = laws.matches-default _ _ _ refl

  foo_code-foo_result :
      (v : ℤ)
      → ((b.has_error (foo_result b v) ≡ true)
          × (foo_result b v ≡ b.failure (foo_code b v))
          × (b.failed (foo_code b v) ≡ true))
        ⊎ ((b.has_error (foo_result b v) ≡ false)
            × (foo_result b v ≡ b.done)
            × (foo_code b v ≡ b.no_error))
  unfolding foo_code foo_result make_error_code error_value
  foo_code-foo_result (pos zero) = inr (laws.has_error-done, refl, refl)
  foo_code-foo_result (pos (suc zero)) = inl (laws.has_error-failure _, refl, laws.failed-suc _)
  foo_code-foo_result (pos (suc (suc zero))) =
      inl (laws.has_error-failure _, refl, laws.failed-suc _)
  foo_code-foo_result (pos (suc (suc (suc zero)))) =
      inl (laws.has_error-failure _, refl, laws.failed-suc _)
  foo_code-foo_result (pos (suc (suc (suc (suc zero))))) =
      inl (laws.has_error-failure _, refl, laws.failed-suc _)
  foo_code-foo_result (pos (suc (suc (suc (suc (suc n)))))) = inr (laws.has_error-done, refl, refl)
  foo_code-foo_result (negsuc n) = inr (laws.has_error-done, refl, refl)

  -- With every Boost.System of the documented behaviour and for every argument, the three interfaces of `foo` agree: the result holds the error that the
  -- code reports, it has an error exactly when the code has failed, and `value` of the result throws
  -- what the throwing `foo` throws, or both return.
  pub foo-forms :
      (v : ℤ)
      → (b.error_of (foo_result b v) ≡ foo_code b v)
        × ((b.has_error (foo_result b v) ≡ b.failed (foo_code b v))
            × (b.value (foo_result b v) ≡ foo_throwing b v))
  unfolding foo_throwing
  foo-forms v = elim (foo_code-foo_result v) [
    | inl (e, r, f) ↦
        let g = ap b.error_of r ∙ laws.error_of-failure _ in
        (g, (e ∙ sym f, ap b.value r ∙ laws.value-failure _ ∙ rw f refl))
    | inr (e, r, c) ↦
        let g = ap b.error_of r ∙ (laws.error_of-done ∙ sym c) in
        let f = ap b.failed c ∙ laws.failed-none in
        (g, (e ∙ sym f, ap b.value r ∙ laws.value-done ∙ rw f refl))
  ]

  success-holds : asserts_success b b.no_error ≡ true
  unfolding asserts_success
  success-holds = rw (laws.failed-none, laws.same_code-refl, laws.matches-none) refl

  failure-holds :
      (e : Error) (c : Condition)
      → b.failed (make_error_code b e) ≡ true
      → is_of c (kind e) ≡ true
      → asserts_failure b (make_error_code b e) (make_error_code b e) (make_error_condition b c)
        ≡ true
  unfolding asserts_failure
  failure-holds e c f k = rw (f, laws.same_code-refl, matches-make e c, k) refl

  type1_a-failed : b.failed (make_error_code b type1_a) ≡ true
  unfolding make_error_code error_value
  type1_a-failed = laws.failed-suc _

  type2_a-failed : b.failed (make_error_code b type2_a) ≡ true
  unfolding make_error_code error_value
  type2_a-failed = laws.failed-suc _

  test_foo_classic_lem : test_foo_classic b ≡ true
  unfolding test_foo_classic foo_code is_of kind
  test_foo_classic_lem =
      rw
        (
          success-holds,
          failure-holds type1_a type1 type1_a-failed refl,
          failure-holds type2_a type2 type2_a-failed refl,
        )
        refl

  test_foo_result_lem : test_foo_result b ≡ true
  unfolding test_foo_result foo_result is_thrown is_of kind
  test_foo_result_lem =
      rw
        (
          laws.has_error-failure,
          laws.error_of-failure,
          laws.value-failure,
          laws.same_code-refl,
          matches-make type2_a type2,
        )
        refl

  -- With every Boost.System of the documented behaviour, every assertion of the two tests named
  -- `test_foo` holds.
  test_foo_lem : (test_foo_classic b ≡ true) × (test_foo_result b ≡ true)
  test_foo_lem = (test_foo_classic_lem, test_foo_result_lem)
