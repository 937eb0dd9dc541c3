-- ===== src/Acceptor/Sessions.antt =====
-- The sessions of a server, each on its own.
use mathlib.Core.Path.{subst}
use mathlib.Core.Option.{some-injective}
use cc_snippets.Prelude.{
  ℕ, zero, suc, ◌≡◌, refl, sym, ap, ◌∙◌, true, false, List, [], ◌∷◌, ◌++◌, Option, none, some,
  get_elem?, set, append-nil, append_assoc, length, length-set, by-if, Option-cases, inl, inr,
}
use cc_snippets.Acceptor.{
  Protocol, Server, Event, accepts, serves, start, handle_accept, accept, serve_at, serve,
  run_server, listen, run_session,
}

-- The times of the connections that a server takes: an accept that fails is its last one.
unfoldable pub accept_times : {E : Type 0} → List (Event E) → List ℕ
accept_times [] = []
accept_times (accepts true clock ∷ es) = []
accept_times (accepts false clock ∷ es) = clock ∷ accept_times es
accept_times (serves i e ∷ es) = accept_times es

module _ {S E : Type 0} (p : Protocol S E) where
  -- The sessions are those that begin at the times, one for each and in their order, and each has
  -- gone through the states of a session alone.
  unfoldable pub AreSessions : List S → List ℕ → Type 0
  unfolding run_session
  AreSessions [] [] = Unit
  AreSessions [] (t ∷ ts) = ⊥
  AreSessions (s ∷ l) [] = ⊥
  AreSessions (s ∷ l) (t ∷ ts) =
      ((alone : List E) × (s ≡ run_session p (p.begin t) alone)) × AreSessions l ts

  run_session-snoc :
      (s : S) (es : List E) (e : E) → run_session p s (es ++ e ∷ []) ≡ p.step (run_session p s es) e
  unfolding run_session
  run_session-snoc s [] e = refl
  run_session-snoc s (x ∷ es) e = run_session-snoc (p.step s x) es e

  set-AreSessions :
      (l : List S) (ts : List ℕ) (i : ℕ) (s : S) (e : E)
      → get_elem? l i ≡ some s
      → AreSessions l ts
      → AreSessions (set l i (p.step s e)) ts
  unfolding AreSessions
  set-AreSessions [] ts i s e g v = cc
  set-AreSessions (x ∷ l) [] i s e g v = elim v [ ]
  set-AreSessions (x ∷ l) (t ∷ ts) zero s e g ((alone, r), v) =
      let q : s ≡ run_session p (p.begin t) alone = sym (some-injective x s g) ∙ r in
      ((alone ++ e ∷ [], ap (λ u. p.step u e) q ∙ sym (run_session-snoc (p.begin t) alone e)), v)
  set-AreSessions (x ∷ l) (t ∷ ts) (suc i) s e g (r, v) = (r, set-AreSessions l ts i s e g v)

  snoc-AreSessions :
      (l : List S) (ts : List ℕ) (t : ℕ)
      → AreSessions l ts
      → AreSessions (l ++ p.begin t ∷ []) (ts ++ t ∷ [])
  unfolding AreSessions run_session
  snoc-AreSessions [] [] t v = (([], refl), tt)
  snoc-AreSessions [] (x ∷ ts) t v = elim v [ ]
  snoc-AreSessions (s ∷ l) [] t v = elim v [ ]
  snoc-AreSessions (s ∷ l) (x ∷ ts) t (r, v) = (r, snoc-AreSessions l ts t v)

  serve_at-AreSessions :
      (v : Server S) (ts : List ℕ) (i : ℕ) (e : E)
      → AreSessions v.sessions ts
      → AreSessions (serve_at p v i e (get_elem? v.sessions i)).sessions ts
  unfolding serve_at
  serve_at-AreSessions v ts i e a = elim (Option-cases (get_elem? v.sessions i)) [
    | inl n ↦ rw n a
    | inr (s, g) ↦ rw g (set-AreSessions v.sessions ts i s e g a)
  ]

  serve_at-accepting :
      (v : Server S) (i : ℕ) (e : E) (o : Option S) → (serve_at p v i e o).accepting ≡ v.accepting
  unfolding serve_at
  serve_at-accepting v i e none = refl
  serve_at-accepting v i e (some s) = refl

  deaf-AreSessions :
      (v : Server S) (es : List (Event E)) (ts : List ℕ)
      → v.accepting ≡ false
      → AreSessions v.sessions ts
      → AreSessions (run_server p v es).sessions ts
  unfolding run_server serve accept
  deaf-AreSessions v [] ts d a = a
  deaf-AreSessions v (accepts error clock ∷ es) ts d a =
      by-if (λ (u : Server S). AreSessions (run_server p u es).sessions ts) v.accepting _ _
        (λ h. cc) (λ h. deaf-AreSessions v es ts d a)
  deaf-AreSessions v (serves i e ∷ es) ts d a =
      deaf-AreSessions (serve_at p v i e (get_elem? v.sessions i)) es ts
        (serve_at-accepting v i e (get_elem? v.sessions i) ∙ d) (serve_at-AreSessions v ts i e a)

  accepting-AreSessions :
      (v : Server S) (es : List (Event E)) (ts : List ℕ)
      → v.accepting ≡ true
      → AreSessions v.sessions ts
      → AreSessions (run_server p v es).sessions (ts ++ accept_times es)
  unfolding run_server serve accept handle_accept start accept_times
  accepting-AreSessions v [] ts d a = rw (append-nil ts) a
  accepting-AreSessions v (accepts true clock ∷ es) ts d a =
      by-if (λ (u : Server S). AreSessions (run_server p u es).sessions (ts ++ [])) v.accepting _ _
        (λ h. rw (append-nil ts) (deaf-AreSessions (record v { accepting = false }) es ts refl a))
        (λ h. cc)
  accepting-AreSessions v (accepts false clock ∷ es) ts d a =
      let v' = record v { sessions = v.sessions ++ p.begin clock ∷ []; accepting = true } in
      let times = ts ++ clock ∷ accept_times es in
      by-if (λ (u : Server S). AreSessions (run_server p u es).sessions times) v.accepting _ _
        (λ h.
          subst (AreSessions (run_server p v' es).sessions)
            (append_assoc ts (clock ∷ []) (accept_times es))
            (accepting-AreSessions v' es (ts ++ clock ∷ []) refl
              (snoc-AreSessions v.sessions ts clock a)))
        (λ h. cc)
  accepting-AreSessions v (serves i e ∷ es) ts d a =
      accepting-AreSessions (serve_at p v i e (get_elem? v.sessions i)) es ts
        (serve_at-accepting v i e (get_elem? v.sessions i) ∙ d) (serve_at-AreSessions v ts i e a)

  -- In every run of a server its sessions are, in their order, one for each accept that succeeds
  -- before the first that fails: the session begins at the time of that accept, and is in a state
  -- that a session alone reaches from there.
  pub run_isolated :
      (es : List (Event E)) → AreSessions (run_server p (listen p) es).sessions (accept_times es)
  unfolding listen start AreSessions
  run_isolated es = accepting-AreSessions (record { accepting = true; sessions = [] }) es [] refl tt

  -- the sessions of a server that does not accept any more
  serve-deaf :
      (v : Server S) (e : Event E)
      → v.accepting ≡ false
      → ((serve p v e).accepting ≡ false) × (length (serve p v e).sessions ≡ length v.sessions)
  unfolding serve serve_at accept
  serve-deaf v (accepts error clock) d =
      by-if (λ (u : Server S). (u.accepting ≡ false) × (length u.sessions ≡ length v.sessions))
        v.accepting _ _ (λ h. cc) (λ h. (d, refl))
  serve-deaf v (serves i e) d = elim (Option-cases (get_elem? v.sessions i)) [
    | inl n ↦ rw n (d, refl)
    | inr (s, g) ↦ rw g (d, length-set v.sessions i (p.step s e))
  ]

  run_server-deaf :
      (v : Server S) (es : List (Event E))
      → v.accepting ≡ false
      → length (run_server p v es).sessions ≡ length v.sessions
  unfolding run_server
  run_server-deaf v [] d = refl
  run_server-deaf v (e ∷ es) d =
      let (a, b) = serve-deaf v e d in run_server-deaf (serve p v e) es a ∙ b

  accept-error :
      (clock : ℕ) (v : Server S)
      → ((accept p true clock v).accepting ≡ false)
        × (length (accept p true clock v).sessions ≡ length v.sessions)
  unfolding accept handle_accept
  accept-error clock v =
      by-if (λ (u : Server S). (u.accepting ≡ false) × (length u.sessions ≡ length v.sessions))
        v.accepting _ _ (λ h. (refl, refl)) (λ h. (h, refl))

  -- After an accept that ends with an error a server never starts a session again, whatever happens.
  pub run_refused :
      (v : Server S) (clock : ℕ) (es : List (Event E))
      → length (run_server p (serve p v (accepts true clock)) es).sessions ≡ length v.sessions
  unfolding serve
  run_refused v clock es =
      let (a, b) = accept-error clock v in run_server-deaf (accept p true clock v) es a ∙ b
