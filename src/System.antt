-- ===== src/System.antt =====
-- system/mylib_error.h: the error codes and the error conditions of the library, over
-- Boost.System, whose types and operations are the record `Boost`. An `int` is an integer ℤ, of
-- which the code only asks which one it is.
pub mod Calls
pub mod Laws
pub mod Claims
mod Tests
use Prim.Native.String.{String}
use cc_snippets.Prelude.{ℤ, pos, negsuc, ℕ, zero, suc, Bool, true, false, Option, none, some, List}

-- What a call that may throw leaves: a normal return, or what it throws.
pub data Outcome (E : Type 0) : Type 0 where
  returned : Outcome E
  thrown : E → Outcome E

-- What the code uses of Boost.System. A category is known by the address of its one object:
-- `own_error` and `own_condition` are those of this library.
pub record Boost : Type 1 where
  pub Category : Type 0
  pub own_error : Category
  pub own_condition : Category
  pub generic : Category
  pub ErrorCode : Type 0
  pub ErrorCondition : Type 0
  -- the constructors from a value and a category, and the default ones
  pub error_code : ℤ → Category → ErrorCode
  pub error_condition : ℤ → Category → ErrorCondition
  pub no_error : ErrorCode
  pub no_condition : ErrorCondition
  pub failed : ErrorCode → Bool
  -- `code == code` and `code == condition`
  pub same_code : ErrorCode → ErrorCode → Bool
  pub matches : ErrorCode → ErrorCondition → Bool
  -- `result<void>`, from nothing and from an error code
  pub Result : Type 0
  pub done : Result
  pub failure : ErrorCode → Result
  pub has_error : Result → Bool
  pub error_of : Result → ErrorCode
  -- `value ()`, which throws the error of a result that has one
  pub value : Result → Outcome ErrorCode

-- `enum class error`
pub data Error : Type 0 where
  success type1_a type1_b type2_a type2_b : Error

-- `enum class condition`
pub data Condition : Type 0 where
  success type1 type2 : Condition

-- `static_cast<int> (e)`
unfoldable pub error_value : Error → ℤ
error_value Error.success = pos 0
error_value type1_a = pos 1
error_value type1_b = pos 2
error_value type2_a = pos 3
error_value type2_b = pos 4

unfoldable pub condition_value : Condition → ℤ
condition_value Condition.success = pos 0
condition_value type1 = pos 1
condition_value type2 = pos 2

-- `static_cast<error> (ev)`, as far as a switch on it tells: `none` is its default
unfoldable pub to_error : ℤ → Option Error
to_error (pos zero) = some Error.success
to_error (pos (suc zero)) = some type1_a
to_error (pos (suc (suc zero))) = some type1_b
to_error (pos (suc (suc (suc zero)))) = some type2_a
to_error (pos (suc (suc (suc (suc zero))))) = some type2_b
to_error _ = none

unfoldable pub to_condition : ℤ → Option Condition
to_condition (pos zero) = some Condition.success
to_condition (pos (suc zero)) = some type1
to_condition (pos (suc (suc zero))) = some type2
to_condition _ = none

-- `name ()` of either category
abbrev pub name : String
name = "mylib"

-- `message (ev)` of the error category, with and without a buffer
unfoldable pub error_message : ℤ → String
unfolding to_error
error_message ev = elim (to_error ev) [
  | none ↦ "unknown error code"
  | some e ↦ elim e [
    | Error.success ↦ "success"
    | type1_a ↦ "error type1 a"
    | type1_b ↦ "error type1 b"
    | type2_a ↦ "error type2 a"
    | type2_b ↦ "error type2 b"
  ]
]

-- `message (ev)` of the condition category
unfoldable pub condition_message : ℤ → String
unfolding to_condition
condition_message ev = elim (to_condition ev) [
  | none ↦ "unknown error condition"
  | some c ↦ elim c [
    | Condition.success ↦ "success"
    | type1 ↦ "error type1"
    | type2 ↦ "error type2"
  ]
]

module _ (b : Boost) where
  open b use {
    ErrorCode, ErrorCondition, own_error, own_condition, error_code, error_condition, no_condition,
  }

  unfoldable pub make_error_code : Error → ErrorCode
  unfolding error_value
  make_error_code e = error_code (error_value e) own_error

  unfoldable pub make_error_condition : Condition → ErrorCondition
  unfolding condition_value
  make_error_condition c = error_condition (condition_value c) own_condition

  unfoldable pub default_error_condition : ℤ → ErrorCondition
  unfolding to_error make_error_condition
  default_error_condition ev = elim (to_error ev) [
    | none ↦ error_condition ev own_error
    | some e ↦ elim e [
      | Error.success ↦ no_condition
      | type1_a ↦ make_error_condition type1
      | type1_b ↦ make_error_condition type1
      | type2_a ↦ make_error_condition type2
      | type2_b ↦ make_error_condition type2
    ]
  ]
