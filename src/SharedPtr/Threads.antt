-- ===== src/SharedPtr/Threads.antt =====
-- The control block of null/shared_ptr.h used by many threads: each atomic access of a count is one
-- step of a thread, and a run takes the steps of the threads in any order. The accesses are
-- sequentially consistent. A thread has shared and weak pointers of its own, and may hand them to
-- another thread, through a box; a pointer that two threads use at once is a data race and no part of this.
pub mod Balance
pub mod Steps
pub mod Lifetime
mod Tests
use cc_snippets.Prelude.{
  ℕ, zero, suc, ◌+◌, ◌-◌, Bool, true, false, ◌&&◌, not, List, [], ◌∷◌, Option, none, some, ◌==◌,
  ltb, if◌then◌else◌, get_elem?, set, replicate,
}

-- Where a thread stands: outside a call, in the loop of lock_use_count with the count it has read,
-- in dec_use_count before dispose and before dec_weak_count, or in dec_weak_count before destroy.
pub data Place : Type 0 where
  idle disposing releasing destroying : Place
  looping : (count : ℕ) → Place

-- the shared and the weak pointers that the thread has
pub record Thread : Type 0 where
  pub shared : ℕ
  pub weak : ℕ
  pub place : Place

-- One control block. `deletions` and `destructions` count the calls of dispose and of destroy, and
-- `faults` the accesses to the block after destroy. `box_shared` and `box_weak` are the pointers on
-- their way from one thread to another.
pub record World : Type 0 where
  pub use_count : ℕ
  pub weak_count : ℕ
  pub deletions : ℕ
  pub destructions : ℕ
  pub faults : ℕ
  pub box_shared : ℕ
  pub box_weak : ℕ
  pub threads : List Thread

pub data Action : Type 0 where
  -- a shared pointer is copied or destroyed, a weak one made from a shared one, copied, destroyed or
  -- locked
  copies drops watches copies_weak drops_weak locks : Action
  -- a pointer is handed to another thread, and taken by it
  sends takes sends_weak takes_weak : Action
  -- the next access in the call; compare_exchange_weak may fail for no reason
  proceeds : (fails : Bool) → Action

-- the faults after one more access
unfoldable pub touch : World → ℕ
touch w = if w.destructions == 0 then w.faults else w.faults + 1

unfoldable pub inc_use_count : World → Thread → World × Thread
unfolding touch
inc_use_count w t = (
  record w { use_count = w.use_count + 1; faults = touch w },
  record t { shared = t.shared + 1; place = idle },
)

unfoldable pub inc_weak_count : World → Thread → World × Thread
unfolding touch
inc_weak_count w t =
    (record w { weak_count = w.weak_count + 1; faults = touch w }, record t { weak = t.weak + 1 })

-- `fetch_sub` of dec_use_count, and of dec_weak_count
unfoldable pub dec_use_count : World → Thread → World × Thread
unfolding touch
dec_use_count w t = (
  record w { use_count = w.use_count - 1; faults = touch w },
  record t { shared = t.shared - 1; place = if w.use_count == 1 then disposing else idle },
)

unfoldable pub dec_weak_count : World → Thread → World × Thread
unfolding touch
dec_weak_count w t = (
  record w { weak_count = w.weak_count - 1; faults = touch w },
  record t { place = if w.weak_count == 1 then destroying else idle },
)

-- `load` of lock_use_count, also that of an exchange that fails
unfoldable pub load : World → Thread → World × Thread
unfolding touch
load w t = (record w { faults = touch w }, record t { place = looping w.use_count })

-- the rest of an iteration of its loop
unfoldable pub lock_use_count : World → Thread → ℕ → Bool → World × Thread
unfolding load inc_use_count
lock_use_count w t count fails =
    if count == 0
    then (w, record t { place = idle })
    else (if (w.use_count == count) && not fails then inc_use_count w t else load w t)

unfoldable pub dispose : World → Thread → World × Thread
unfolding touch
dispose w t =
    (record w { deletions = w.deletions + 1; faults = touch w }, record t { place = releasing })

unfoldable pub destroy : World → Thread → World × Thread
unfolding touch
destroy w t =
    (record w { destructions = w.destructions + 1; faults = touch w }, record t { place = idle })

-- A thread begins a call, with a pointer that it has.
unfoldable pub begin : World → Thread → Action → World × Thread
unfolding inc_use_count inc_weak_count dec_use_count dec_weak_count load
begin w t copies = if ltb 0 t.shared then inc_use_count w t else (w, t)
begin w t drops = if ltb 0 t.shared then dec_use_count w t else (w, t)
begin w t watches = if ltb 0 t.shared then inc_weak_count w t else (w, t)
begin w t copies_weak = if ltb 0 t.weak then inc_weak_count w t else (w, t)
begin w t drops_weak =
    if ltb 0 t.weak then dec_weak_count w (record t { weak = t.weak - 1 }) else (w, t)
begin w t locks = if ltb 0 t.weak then load w t else (w, t)
begin w t sends =
    if ltb 0 t.shared
    then (record w { box_shared = w.box_shared + 1 }, record t { shared = t.shared - 1 })
    else (w, t)
begin w t takes =
    if ltb 0 w.box_shared
    then (record w { box_shared = w.box_shared - 1 }, record t { shared = t.shared + 1 })
    else (w, t)
begin w t sends_weak =
    if ltb 0 t.weak
    then (record w { box_weak = w.box_weak + 1 }, record t { weak = t.weak - 1 })
    else (w, t)
begin w t takes_weak =
    if ltb 0 w.box_weak
    then (record w { box_weak = w.box_weak - 1 }, record t { weak = t.weak + 1 })
    else (w, t)
begin w t (proceeds fails) = (w, t)

-- or goes on with one.
unfoldable pub proceed : World → Thread → Place → Bool → World × Thread
unfolding lock_use_count dispose dec_weak_count destroy
proceed w t idle fails = (w, t)
proceed w t (looping count) fails = lock_use_count w t count fails
proceed w t disposing fails = dispose w t
proceed w t releasing fails = dec_weak_count w t
proceed w t destroying fails = destroy w t

unfoldable pub go_on : World → Thread → Place → Action → World × Thread
unfolding proceed
go_on w t p (proceeds fails) = proceed w t p fails
go_on w t p a = (w, t)

unfoldable pub act : World → Thread → Place → Action → World × Thread
unfolding begin go_on
act w t idle a = begin w t a
act w t p a = go_on w t p a

pub record Event : Type 0 where
  pub thread : ℕ
  pub action : Action

unfoldable pub act_at : World → ℕ → Action → Option Thread → World
unfolding act
act_at w i a none = w
act_at w i a (some t) =
    let (w', t') = act w t t.place a in record w' { threads = set w.threads i t' }

unfoldable pub step : World → Event → World
unfolding act_at
step w e = act_at w e.thread e.action (get_elem? w.threads e.thread)

unfoldable pub run : World → List Event → World
unfolding step
run w [] = w
run w (e ∷ es) = run (step w e) es

-- The first of the threads has just made the control block; so many others have nothing yet.
unfoldable pub start : ℕ → World
start n = record {
  use_count = 1;
  weak_count = 1;
  deletions = 0;
  destructions = 0;
  faults = 0;
  box_shared = 0;
  box_weak = 0;
  threads =
      record { shared = 1; weak = 0; place = idle }
      ∷ replicate n (record { shared = 0; weak = 0; place = idle });
}
