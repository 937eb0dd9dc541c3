-- ===== src/System/Laws.antt =====
-- What Boost.System documents of the operations that the code of system/ uses.
use cc_snippets.Prelude.{ℤ, pos, ℕ, suc, ◌≡◌, ◌≢◌, ◌⊎◌, true, false}
use cc_snippets.System.{Boost, returned, thrown, default_error_condition}

module _ (b : Boost) where
  open b use {
    Category, own_error, own_condition, generic, error_code, error_condition, no_error,
    no_condition, failed, same_code, matches, done, failure, has_error, error_of, value, ErrorCode,
  }

  pub record Laws : Type 0 where
    -- two objects of two classes have two addresses
    pub own_error-own_condition : own_error ≢ own_condition
    pub generic-own_condition : generic ≢ own_condition
    pub error_condition-injective :
        (u v : ℤ) (c d : Category) → error_condition u c ≡ error_condition v d → (u ≡ v) × (c ≡ d)
    pub no_condition_eq : no_condition ≡ error_condition (pos 0) generic
    -- a code has failed if its value is not 0, unless its category says otherwise
    pub failed-none : failed no_error ≡ false
    pub failed-zero : (c : Category) → failed (error_code (pos 0) c) ≡ false
    pub failed-suc : (n : ℕ) → failed (error_code (pos (suc n)) own_error) ≡ true
    pub same_code-refl : (e : ErrorCode) → same_code e e ≡ true
    -- A code matches a condition by either category's `equivalent`: the code's default condition
    -- is the condition, or the condition has the category and the value of the code.
    pub matches-default :
        (v u : ℤ) (c : Category)
        → default_error_condition b v ≡ error_condition u c
        → matches (error_code v own_error) (error_condition u c) ≡ true
    pub matches-only :
        (v u : ℤ) (c : Category)
        → matches (error_code v own_error) (error_condition u c) ≡ true
        → (default_error_condition b v ≡ error_condition u c) ⊎ ((c ≡ own_error) × (v ≡ u))
    -- the default code is that of success
    pub matches-none : matches no_error no_condition ≡ true
    pub matches-none_own : (u : ℤ) → matches no_error (error_condition u own_condition) ≡ false
    pub has_error-done : has_error done ≡ false
    pub error_of-done : error_of done ≡ no_error
    pub has_error-failure : (e : ErrorCode) → has_error (failure e) ≡ true
    pub error_of-failure : (e : ErrorCode) → error_of (failure e) ≡ e
    pub value-done : value done ≡ returned
    pub value-failure : (e : ErrorCode) → value (failure e) ≡ thrown e
