-- ===== src/SharedPtr/Threads/Steps.antt =====
-- Each step of a thread keeps the balance of the control block.
use cc_snippets.Prelude.{ℕ, ◌<◌, ◌≡◌, refl, Bool, not, ◌&&◌, arith, ◌==◌, ltb, if◌then◌else◌, by-if}
use cc_snippets.SharedPtr.Threads.{
  Place, idle, disposing, releasing, destroying, looping, Thread, World, Action, copies, drops,
  watches, copies_weak, drops_weak, locks, sends, takes, sends_weak, takes_weak, proceeds,
  lock_use_count, begin, proceed, go_on, act,
}
use cc_snippets.SharedPtr.Threads.Balance.{
  at_disposing, at_releasing, at_destroying, uncovered, WithThread, inc_use_count-IsBalanced,
  inc_weak_count-IsBalanced, dec_use_count-IsBalanced, dec_weak_count-IsBalanced,
  releasing-IsBalanced, load-IsBalanced, dispose-IsBalanced, destroy-IsBalanced, use-weak,
}

module _ (s k d r x u : ℕ) where
  lock_use_count-IsBalanced :
      (w : World) (t : Thread) (count : ℕ) (fails : Bool)
      → t.place ≡ looping count
      → WithThread s k d r x u (w, t)
      → WithThread s k d r x u (lock_use_count w t count fails)
  unfolding lock_use_count at_disposing at_releasing at_destroying uncovered
  lock_use_count-IsBalanced w t count fails q v =
      by-if (WithThread s k d r x u) (count == 0) _ _
        (λ z. record {
          uses = v.uses;
          disposal = ground (arith, q, v.disposal);
          share = ground (arith, q, v.share);
          destruction = ground (arith, q, v.destruction);
          covered = ground (arith, q, v.covered);
          clean = v.clean;
        })
        (λ z.
          by-if (WithThread s k d r x u) ((w.use_count == count) && not fails) _ _
            (λ e.
              inc_use_count-IsBalanced s k d r x u w t (looping count) q refl (ground (arith, z, e))
                v)
            (λ e.
              load-IsBalanced s k d r x u w t (looping count) q refl (ground (arith, q, v.covered))
                v))

  stand-IsBalanced :
      (w : World) (t : Thread) (n : ℕ) (y : World × Thread)
      → (0 < n → WithThread s k d r x u y)
      → WithThread s k d r x u (w, t)
      → WithThread s k d r x u (if ltb 0 n then y else (w, t))
  stand-IsBalanced w t n y f v =
      by-if (WithThread s k d r x u) (ltb 0 n) _ _ (λ e. f (ground (arith, e))) (λ e. v)

  begin-IsBalanced :
      (w : World) (t : Thread) (a : Action)
      → t.place ≡ idle
      → WithThread s k d r x u (w, t)
      → WithThread s k d r x u (begin w t a)
  unfolding begin at_disposing at_releasing at_destroying uncovered
  begin-IsBalanced w t copies q v =
      stand-IsBalanced w t t.shared _
        (λ h. inc_use_count-IsBalanced s k d r x u w t idle q refl (omega (arith, v.uses, h)) v) v
  begin-IsBalanced w t drops q v =
      stand-IsBalanced w t t.shared _ (λ h. dec_use_count-IsBalanced s k d r x u w t q h v) v
  begin-IsBalanced w t watches q v =
      stand-IsBalanced w t t.shared _
        (λ h.
          inc_weak_count-IsBalanced s k d r x u w t q
            (use-weak s k d r x u w t (omega (arith, v.uses, h)) v) v)
        v
  begin-IsBalanced w t copies_weak q v =
      stand-IsBalanced w t t.weak _
        (λ h. inc_weak_count-IsBalanced s k d r x u w t q (omega (arith, v.share, h)) v) v
  begin-IsBalanced w t drops_weak q v =
      stand-IsBalanced w t t.weak _ (λ h. dec_weak_count-IsBalanced s k d r x u w t q h v) v
  begin-IsBalanced w t locks q v =
      stand-IsBalanced w t t.weak _ (λ h. load-IsBalanced s k d r x u w t idle q refl h v) v
  begin-IsBalanced w t sends q v =
      stand-IsBalanced w t t.shared _
        (λ h. record {
          uses = omega (arith, h, v.uses);
          disposal = v.disposal;
          share = v.share;
          destruction = v.destruction;
          covered = v.covered;
          clean = v.clean;
        })
        v
  begin-IsBalanced w t takes q v =
      stand-IsBalanced w t w.box_shared _
        (λ h. record {
          uses = omega (arith, h, v.uses);
          disposal = v.disposal;
          share = v.share;
          destruction = v.destruction;
          covered = v.covered;
          clean = v.clean;
        })
        v
  begin-IsBalanced w t sends_weak q v =
      stand-IsBalanced w t t.weak _
        (λ h. record {
          uses = v.uses;
          disposal = v.disposal;
          share = omega (arith, h, v.share);
          destruction = v.destruction;
          covered = ground (arith, q, v.covered);
          clean = v.clean;
        })
        v
  begin-IsBalanced w t takes_weak q v =
      stand-IsBalanced w t w.box_weak _
        (λ h. record {
          uses = v.uses;
          disposal = v.disposal;
          share = omega (arith, h, v.share);
          destruction = v.destruction;
          covered = ground (arith, q, v.covered);
          clean = v.clean;
        })
        v
  begin-IsBalanced w t (proceeds fails) q v = v

  proceed-IsBalanced :
      (w : World) (t : Thread) (p : Place) (fails : Bool)
      → t.place ≡ p
      → WithThread s k d r x u (w, t)
      → WithThread s k d r x u (proceed w t p fails)
  unfolding proceed
  proceed-IsBalanced w t idle fails q v = v
  proceed-IsBalanced w t (looping count) fails q v = lock_use_count-IsBalanced w t count fails q v
  proceed-IsBalanced w t disposing fails q v = dispose-IsBalanced s k d r x u w t q v
  proceed-IsBalanced w t releasing fails q v = releasing-IsBalanced s k d r x u w t q v
  proceed-IsBalanced w t destroying fails q v = destroy-IsBalanced s k d r x u w t q v

  go_on-IsBalanced :
      (w : World) (t : Thread) (p : Place) (a : Action)
      → t.place ≡ p
      → WithThread s k d r x u (w, t)
      → WithThread s k d r x u (go_on w t p a)
  unfolding go_on
  go_on-IsBalanced w t p (proceeds fails) q v = proceed-IsBalanced w t p fails q v
  go_on-IsBalanced w t p a q v = v

  pub act-IsBalanced :
      (w : World) (t : Thread) (p : Place) (a : Action)
      → t.place ≡ p
      → WithThread s k d r x u (w, t)
      → WithThread s k d r x u (act w t p a)
  unfolding act
  act-IsBalanced w t idle a q v = begin-IsBalanced w t a q v
  act-IsBalanced w t p a q v = go_on-IsBalanced w t p a q v
