-- ===== src/Channel/Relayed.antt =====
-- The invariant of the bytes that go through a buffer.
use cc_snippets.Prelude.{
  ℕ, zero, suc, ◌≤◌, ◌≡◌, ◌≢◌, refl, sym, ap, ◌∙◌, List, [], ◌∷◌, ◌++◌, arith, take, length, inl,
  inr, ◌⊎◌, append-nil, take_of_length-le,
}
use cc_snippets.Channel.{
  Channel, Pending, nothing, receiving, sending, buffer_size, resize, fill, drain,
}

-- what is received and not yet sent
unfoldable pub to_send : List ℕ → Pending → List ℕ
to_send buffer (sending n) = take n buffer
to_send buffer _ = []

pub record IsRelayed (c : Channel) : Type 0 where
  pub rest : List ℕ
  pub split : c.received ≡ c.sent ++ rest
  pub bounded : length rest ≤ buffer_size
  pub agrees : (c.pending ≡ nothing) ⊎ (rest ≡ to_send c.buffer c.pending)

pub length-take-le : (n : ℕ) (l : List ℕ) → length (take n l) ≤ n
length-take-le zero l = omega arith
length-take-le (suc n) [] = omega arith
length-take-le (suc n) (x ∷ l) = omega (arith, length-take-le n l)

pub rest-receiving : (c : Channel) → IsRelayed c → c.pending ≡ receiving → c.received ≡ c.sent
unfolding to_send
rest-receiving c v p =
    v.split
    ∙ (ap (λ r. c.sent ++ r) (elim v.agrees [ inl f ↦ cc | inr f ↦ rw (f, p) refl ])
        ∙ append-nil c.sent)

rest-sending :
    (c : Channel) (n : ℕ)
    → IsRelayed c
    → c.pending ≡ sending n
    → c.received ≡ c.sent ++ take n c.buffer
unfolding to_send
rest-sending c n v p =
    v.split ∙ ap (λ r. c.sent ++ r) (elim v.agrees [ inl f ↦ cc | inr f ↦ rw (f, p) refl ])

take-length-append : (a b : List ℕ) → take (length a) (a ++ b) ≡ a
take-length-append [] b = refl
take-length-append (x ∷ a) b = rw (take-length-append a b)

resize-length-append : (a b : List ℕ) → resize (length a) (a ++ b) ≡ a
unfolding resize
resize-length-append [] b = refl
resize-length-append (x ∷ a) b = rw (resize-length-append a b)

-- An operation is given up.
pub idle-IsRelayed : (c : Channel) → IsRelayed c → IsRelayed (record c { pending = nothing })
idle-IsRelayed c v = record {
  rest = v.rest;
  split = v.split;
  bounded = v.bounded;
  agrees = inl refl;
}

-- A receive has ended, and the write of its bytes begins.
pub fill-IsRelayed :
    (c : Channel) (bytes : List ℕ)
    → c.pending ≡ receiving
    → IsRelayed c
    → IsRelayed (record (fill bytes c) { pending = sending (length (take buffer_size bytes)) })
unfolding fill to_send
fill-IsRelayed c bytes p v = record {
  rest = take buffer_size bytes;
  split = rw (rest-receiving c v p) refl;
  bounded = length-take-le buffer_size bytes;
  agrees = inr (sym (take-length-append (take buffer_size bytes) _));
}

-- The same with a vector, which is cut to the bytes received and is then sent as a whole.
pub resize-IsRelayed :
    (c : Channel) (bytes : List ℕ)
    → c.pending ≡ receiving
    → IsRelayed c
    → (let got = take buffer_size bytes in
        let cut = resize (length got) (fill bytes c).buffer in
        IsRelayed (record (fill bytes c) { buffer = cut; pending = sending (length cut) }))
unfolding fill to_send
resize-IsRelayed c bytes p v =
    let got = take buffer_size bytes in
    record {
      rest = got;
      split = rw (rest-receiving c v p) refl;
      bounded = length-take-le buffer_size bytes;
      agrees = inr (sym (take_of_length-le _ _ (omega arith) ∙ resize-length-append got _));
    }

receiving-IsRelayed : (c : Channel) → c.received ≡ c.sent → c.pending ≡ receiving → IsRelayed c
unfolding to_send
receiving-IsRelayed c e p = record {
  rest = [];
  split = e ∙ sym (append-nil c.sent);
  bounded = omega arith;
  agrees = inr (rw p refl);
}

-- A write has ended, and a receive begins.
pub drain-IsRelayed :
    (c : Channel) (n : ℕ)
    → c.pending ≡ sending n
    → IsRelayed c
    → IsRelayed (record (drain n c) { pending = receiving })
unfolding drain
drain-IsRelayed c n p v = receiving-IsRelayed _ (rest-sending c n v p) refl

-- The first receive begins, with nothing received and sent before.
pub first-IsRelayed :
    (c : Channel) → c.received ≡ c.sent → IsRelayed (record c { pending = receiving })
first-IsRelayed c e = receiving-IsRelayed (record c { pending = receiving }) e refl

-- The same with a vector, whose length is set before each receive.
pub resize-drain-IsRelayed :
    (c : Channel) (n m : ℕ)
    → c.pending ≡ sending n
    → IsRelayed c
    → IsRelayed (record (drain n c) { buffer = resize m c.buffer; pending = receiving })
unfolding drain
resize-drain-IsRelayed c n m p v = receiving-IsRelayed _ (rest-sending c n v p) refl

pub resize-first-IsRelayed :
    (c : Channel) (m : ℕ)
    → c.received ≡ c.sent
    → IsRelayed (record c { buffer = resize m c.buffer; pending = receiving })
resize-first-IsRelayed c m e =
    receiving-IsRelayed (record c { buffer = resize m c.buffer; pending = receiving }) e refl

-- What a channel promises: the bytes sent are the first of those received, and all but at most
-- `buffer_size`; all of them while it receives.
pub IsRelaying : Channel → Type 0
IsRelaying c =
    ((rest : List ℕ) × (c.received ≡ c.sent ++ rest) × (length rest ≤ buffer_size))
    × ((c.pending ≢ receiving) ⊎ (c.received ≡ c.sent))

pub IsRelayed-IsRelaying : (c : Channel) → IsRelayed c → IsRelaying c
unfolding IsRelaying
IsRelayed-IsRelaying c v = ((v.rest, v.split, v.bounded), go c.pending refl)
  where
    go : (p : Pending) → c.pending ≡ p → (c.pending ≢ receiving) ⊎ (c.received ≡ c.sent)
    go nothing e = inl (λ h. cc)
    go (sending n) e = inl (λ h. cc)
    go receiving e = inr (rest-receiving c v e)
