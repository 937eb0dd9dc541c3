-- ===== src/System/Calls.antt =====
-- system/mylib_classic.cc, system/mylib_result.cc and system/test_result.cc: one function that
-- may fail, reporting by an error code, by an exception and by a result, the assertions of its
-- tests, and a program with an error type of its own.
use Prim.Native.String.{String, ◌++◌}
use cc_snippets.Prelude.{ℤ, pos, zero, suc, Bool, true, false, not, ◌&&◌, if◌then◌else◌}
use cc_snippets.System.{
  Boost, Outcome, returned, thrown, type1_a, type1_b, type2_a, type2_b, type1, type2,
  make_error_code, make_error_condition,
}

module _ (b : Boost) where
  open b use {
    ErrorCode, no_error, no_condition, failed, same_code, matches, Result, done, failure, has_error,
    error_of, value,
  }

  -- `foo (v, ec)` of mylib_classic.cc: what it leaves in `ec`
  unfoldable pub foo_code : ℤ → ErrorCode
  foo_code (pos (suc zero)) = make_error_code b type1_a
  foo_code (pos (suc (suc zero))) = make_error_code b type1_b
  foo_code (pos (suc (suc (suc zero)))) = make_error_code b type2_a
  foo_code (pos (suc (suc (suc (suc zero))))) = make_error_code b type2_b
  foo_code _ = no_error

  -- `foo (v)` of mylib_classic.cc
  unfoldable pub foo_throwing : ℤ → Outcome ErrorCode
  unfolding foo_code
  foo_throwing v = let ec = foo_code v in if failed ec then thrown ec else returned

  -- `foo (v)` of mylib_result.cc
  unfoldable pub foo_result : ℤ → Result
  foo_result (pos (suc zero)) = failure (make_error_code b type1_a)
  foo_result (pos (suc (suc zero))) = failure (make_error_code b type1_b)
  foo_result (pos (suc (suc (suc zero)))) = failure (make_error_code b type2_a)
  foo_result (pos (suc (suc (suc (suc zero))))) = failure (make_error_code b type2_b)
  foo_result _ = done

  -- The assertions of `test_foo`, on what `foo` left in `ec`: a success, and a failure.
  unfoldable pub asserts_success : ErrorCode → Bool
  asserts_success ec = not (failed ec) && (same_code ec no_error && matches ec no_condition)

  unfoldable pub asserts_failure : ErrorCode → ErrorCode → b.ErrorCondition → Bool
  asserts_failure ec code cond = failed ec && (same_code ec code && matches ec cond)

  -- `test_foo` of mylib_classic.cc: whether every assertion holds
  unfoldable pub test_foo_classic : Bool
  unfolding foo_code asserts_success asserts_failure
  test_foo_classic =
      asserts_success (foo_code (pos 0))
      && (asserts_failure (foo_code (pos 1)) (make_error_code b type1_a)
            (make_error_condition b type1)
          && (asserts_failure (foo_code (pos 3)) (make_error_code b type2_a)
                (make_error_condition b type2)
              && asserts_success (foo_code (pos 5))))

  unfoldable pub is_thrown : {E : Type 0} → Outcome E → Bool
  is_thrown returned = false
  is_thrown (thrown _) = true

  -- `test_foo` of mylib_result.cc
  unfoldable pub test_foo_result : Bool
  unfolding foo_result is_thrown
  test_foo_result =
      let res = foo_result (pos 3) in
      let ec = error_of res in
      has_error res
      && (same_code ec (make_error_code b type2_a)
          && (matches ec (make_error_condition b type2) && is_thrown (value res)))

-- `my::error` of test_result.cc
pub record MyError : Type 0 where
  pub message : String

-- `result<void, my::error>`
pub data MyResult : Type 0 where
  my_done : MyResult
  my_failure : MyError → MyResult

-- `my::throw_exception_from_error`: what the runtime_error it throws says
unfoldable pub throw_exception_from_error : MyError → String → String
throw_exception_from_error e loc = ((e.message ++ " [location: ") ++ loc) ++ "]"

-- `foo (v)` of test_result.cc
unfoldable pub foo_bool : Bool → MyResult
foo_bool v = if v then my_done else my_failure (record { message = "bad" })
