-- ===== src/Lru/Tests.antt =====
-- The theorems about null/lru_cache.h on a cache of two entries.
use cc_snippets.Prelude.{ℕ, ◌<◌, ◌≡◌, refl, List, [], ◌∷◌, none, some, arith, ℕ_discrete}
use cc_snippets.Lru.{
  Node, Cache, init, get, put, node_at, insert_front, make_room, assign, erase, find,
}
use cc_snippets.Lru.Nodes.{node_of}
use cc_snippets.Lru.Invariant.{IsValid, init-IsValid}
use cc_snippets.Lru.Cases.{put-IsValid}
use cc_snippets.Lru.Refine.{Call, get_of, put_of, run_recent, run_cache, run_cache-init}
use cc_snippets.Lru.Pointers.{after_calls, get-after_calls, put_dangling}

abbrev empty : Cache ℕ ℕ
empty = record { capacity = 2; list = []; map = []; fresh = 0 }

empty-IsValid : IsValid ℕ_discrete empty
empty-IsValid = init-IsValid ℕ_discrete 2 empty (unfold init in refl)

abbrev two : Cache ℕ ℕ
two = put ℕ_discrete (put ℕ_discrete empty 1 10) 2 20

two-IsValid : IsValid ℕ_discrete two
two-IsValid = put-IsValid ℕ_discrete _ 2 (put-IsValid ℕ_discrete empty 1 empty-IsValid 10) 20

abbrev calls : List (Call ℕ ℕ)
calls = put_of 1 10 ∷ put_of 2 20 ∷ get_of 1 ∷ put_of 3 30 ∷ get_of 2 ∷ get_of 1 ∷ []

run_cache-init_example :
    (0 < 2) × (run_cache ℕ_discrete empty calls ≡ run_recent ℕ_discrete 2 [] calls)
unfolding init
run_cache-init_example = run_cache-init ℕ_discrete 2 calls empty refl

get-after_calls_example :
    (n : Node ℕ ℕ) × (node_at 0
        (after_calls ℕ_discrete (get ℕ_discrete two 1).0 (put_of 3 30 ∷ [])).list
      ≡ some n)
    × (n.key ≡ 1)
unfolding put get find insert_front make_room assign erase ℕ_discrete
get-after_calls_example =
    get-after_calls ℕ_discrete two 1 0 (put_of 3 30 ∷ []) two-IsValid refl (omega arith)

put_dangling_example : node_at 0 (put ℕ_discrete two 3 30).list ≡ none
unfolding put find insert_front make_room assign erase node_of node_at ℕ_discrete
put_dangling_example =
    put_dangling ℕ_discrete two 3 30 (record { id = 0; key = 1; value = 10 }) 0
      (record { id = 0; key = 1; value = 10 }) two-IsValid refl (omega arith) refl refl
