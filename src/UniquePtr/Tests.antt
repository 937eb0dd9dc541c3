-- ===== src/UniquePtr/Tests.antt =====
-- The theorems about null/unique_ptr.h, for deleters with a number as their state.
use cc_snippets.Prelude.{ℕ, ◌+◌, ◌≡◌, List, [], ◌∷◌, some}
use cc_snippets.UniquePtr.{construct_with, destruct, reset}
use cc_snippets.UniquePtr.Program.{World, Call, run, start}
use cc_snippets.UniquePtr.Ownership.{
  times_owned, times_deleted, times, run_conserved, destruct-reset,
}

-- Two pointers, one assigned to the other; a reset, a release, and the end of the first.
abbrev calls : List (Call ℕ)
calls =
    Call.constructs (some 5)
    ∷ Call.constructs_with (some 6) 9
    ∷ Call.move_assigns 0 1
    ∷ Call.resets 1 (some 7)
    ∷ Call.releases 0
    ∷ Call.destructs 1
    ∷ []

abbrev moved : ℕ → ℕ
moved d = d

abbrev after : World ℕ
after = run 0 moved start calls

run_conserved_example :
    times_owned 5 after.objects + times_deleted 5 after.log + times 5 after.released
    ≡ times 5 after.adopted
run_conserved_example = run_conserved 0 moved calls 5

destruct-reset_example :
    let (this, log) = reset 0 moved (some 7) (construct_with (some 5) 9) [] in
    (this.del ≡ 0) × (destruct this log ≡ (0, 7) ∷ (9, 5) ∷ [])
destruct-reset_example = destruct-reset 0 moved 5 7 9 []
