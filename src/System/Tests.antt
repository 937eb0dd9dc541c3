-- ===== src/System/Tests.antt =====
-- One Boost.System of the documented behaviour, and the theorems about system/ on it.
use cc_snippets.Prelude.{
  ℤ, pos, negsuc, ℕ, zero, suc, ◌≡◌, refl, sym, ap, ap₂, ◌∙◌, ◌↔◌, ◌⊎◌, inl, inr, Bool, true, false,
  ◌&&◌, ◌||◌, Option, none, some, arith, ◌==◌, ==_iff, not,
}
use cc_snippets.System.{
  Boost, returned, thrown, Error, type1_a, type1_b, type2_a, type2_b, type1, to_error,
  make_error_code, make_error_condition, default_error_condition,
}
use cc_snippets.System.Calls.{foo_code, foo_throwing, foo_result}
use cc_snippets.System.Laws.{Laws}
use cc_snippets.System.Claims.{kind, is_of, matches-make, foo-forms}

same_int : ℤ → ℤ → Bool
same_int (pos n) (pos m) = n == m
same_int (negsuc n) (negsuc m) = n == m
same_int _ _ = false

same_int_iff : (u v : ℤ) → (same_int u v ≡ true) ↔ (u ≡ v)
unfolding same_int
same_int_iff (pos n) (pos m) = ground arith
same_int_iff (negsuc n) (negsuc m) = ground arith
same_int_iff (pos n) (negsuc m) = ground arith
same_int_iff (negsuc n) (pos m) = ground arith

record Pair : Type 0 where
  number : ℤ
  category : ℕ

pair : ℤ → ℕ → Pair
pair v c = record { number = v; category = c }

same : Pair → Pair → Bool
unfolding same_int
same p q = same_int p.number q.number && (p.category == q.category)

-- categories: 0 the library's errors, 1 its conditions, 2 generic, 3 system
plain_default : ℤ → Pair
unfolding pair
plain_default v = elim (to_error v) [
  | none ↦ pair v 0
  | some Error.success ↦ pair (pos 0) 2
  | some type1_a ↦ pair (pos 1) 1
  | some type1_b ↦ pair (pos 1) 1
  | some type2_a ↦ pair (pos 2) 1
  | some type2_b ↦ pair (pos 2) 1
]

same_iff : (p q : Pair) → (same p q ≡ true) ↔ (p ≡ q)
unfolding same pair
same_iff p q = (
  λ h. ap₂ pair ((same_int_iff p.number q.number).0 (ground arith)) (ground arith),
  λ h. rw (h, (same_int_iff q.number q.number).1 refl, (==_iff q.category q.category).1 refl) refl,
)

default_of : Pair → Pair
unfolding pair
default_of e = elim e.category [
  | zero ↦ plain_default e.number
  | suc (suc (suc zero)) ↦ pair e.number 2
  | _ ↦ e
]

is_failed : Pair → Bool
is_failed e = not (same_int e.number (pos 0))

is_match : Pair → Pair → Bool
is_match e c = same (default_of e) c || same e c

abbrev simple_boost : Boost
simple_boost = record {
  Category = ℕ;
  own_error = 0;
  own_condition = 1;
  generic = 2;
  ErrorCode = Pair;
  ErrorCondition = Pair;
  error_code = pair;
  error_condition = pair;
  no_error = pair (pos 0) 3;
  no_condition = pair (pos 0) 2;
  failed = is_failed;
  same_code = same;
  matches = is_match;
  Result = Option Pair;
  done = none;
  failure = some;
  has_error = λ r. elim r [ none ↦ false | some _ ↦ true ];
  error_of = λ r. elim r [ none ↦ pair (pos 0) 3 | some e ↦ e ];
  value = λ r. elim r [ none ↦ returned | some e ↦ thrown e ];
}

default-plain : (v : ℤ) → default_error_condition simple_boost v ≡ plain_default v
unfolding default_error_condition plain_default make_error_condition pair
default-plain v = elim (to_error v) [
  | none ↦ refl
  | some Error.success ↦ refl
  | some type1_a ↦ refl
  | some type1_b ↦ refl
  | some type2_a ↦ refl
  | some type2_b ↦ refl
]

is_match-own :
    (v u : ℤ) (c : ℕ)
    → (is_match (pair v 0) (pair u c) ≡ true)
      ↔ ((plain_default v ≡ pair u c) ⊎ (pair v 0 ≡ pair u c))
unfolding is_match default_of
is_match-own v u c =
    ground (arith, same_iff (plain_default v) (pair u c), same_iff (pair v 0) (pair u c))

failed_suc : (n : ℕ) → is_failed (pair (pos (suc n)) 0) ≡ true
unfolding is_failed same_int pair
failed_suc n = ground arith

no_match_own : (u : ℤ) → is_match (pair (pos 0) 3) (pair u 1) ≡ false
unfolding is_match default_of same same_int pair
no_match_own (pos n) = ground arith
no_match_own (negsuc n) = refl

simple_boost-Laws : Laws simple_boost
unfolding is_match is_failed default_of pair same_int same
simple_boost-Laws = record {
  own_error-own_condition = λ h. ground arith;
  generic-own_condition = λ h. ground arith;
  error_condition-injective = λ u v c d h. (ap (λ p. p.number) h, ap (λ p. p.category) h);
  no_condition_eq = refl;
  failed-none = refl;
  failed-zero = λ c. refl;
  failed-suc = λ n. failed_suc n;
  same_code-refl = λ e. (same_iff e e).1 refl;
  matches-default = λ v u c h. (is_match-own v u c).1 (inl (sym (default-plain v) ∙ h));
  matches-only = λ v u c h. elim ((is_match-own v u c).0 h) [
    | inl e ↦ inl (default-plain v ∙ e)
    | inr e ↦ inr (ap (λ p. p.category) (sym e), ap (λ p. p.number) e)
  ];
  matches-none = refl;
  matches-none_own = λ u. no_match_own u;
  has_error-done = refl;
  error_of-done = refl;
  has_error-failure = λ e. refl;
  error_of-failure = λ e. refl;
  value-done = refl;
  value-failure = λ e. refl;
}

matches-make_example :
    is_match (make_error_code simple_boost type1_b) (make_error_condition simple_boost type1) ≡ true
unfolding is_of kind
matches-make_example = matches-make simple_boost simple_boost-Laws type1_b type1

foo-forms_example :
    (simple_boost.error_of (foo_result simple_boost (pos 4)) ≡ foo_code simple_boost (pos 4))
    × ((simple_boost.has_error (foo_result simple_boost (pos 4))
          ≡ simple_boost.failed (foo_code simple_boost (pos 4)))
        × (simple_boost.value (foo_result simple_boost (pos 4))
            ≡ foo_throwing simple_boost (pos 4)))
foo-forms_example = foo-forms simple_boost simple_boost-Laws (pos 4)
