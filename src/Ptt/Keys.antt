-- ===== src/Ptt/Keys.antt =====
-- What the windows are told of the key (voice/ptt.ts).
use united.Prelude.{
  ℕ, ◌==◌, ◌≡◌, refl, ap, sym, subst, Bool, true, false, List, [], ◌∷◌, ◌++◌, if◌then◌else◌, inl,
  inr, Bool-cases, arith,
}
use united.Ptt.Hook.{
  Callbacks, Output, activate, deactivate, broadcast, Ptt, KeyEvent, keydown, keyup, handle, emit,
  emit_all,
}

-- The reference: whether the key is held after some events, repeated ones included.
abbrev pub held : ℕ → Bool → List KeyEvent → Bool
held k before [] = before
held k before (keydown c ∷ es) = held k (if c == k then true else before) es
held k before (keyup c ∷ es) = held k (if c == k then false else before) es

-- The reference: whether the key is held after each event.
abbrev pub states : ℕ → Bool → List KeyEvent → List Bool
states k before [] = []
states k before (e ∷ es) = held k before (e ∷ []) ∷ states k (held k before (e ∷ [])) es

-- The values that differ from the one before.
abbrev pub changes : Bool → List Bool → List Bool
changes before [] = []
changes true (true ∷ bs) = changes true bs
changes true (false ∷ bs) = false ∷ changes false bs
changes false (true ∷ bs) = true ∷ changes true bs
changes false (false ∷ bs) = changes false bs

-- What the windows are told.
abbrev pub told : List Output → List Bool
told [] = []
told (broadcast b ∷ out) = b ∷ told out
told (activate ∷ out) = told out
told (deactivate ∷ out) = told out

told-append : (xs ys : List Output) → told (xs ++ ys) ≡ told xs ++ told ys
told-append [] ys = refl
told-append (broadcast b ∷ xs) ys = ap (◌∷◌ b) (told-append xs ys)
told-append (activate ∷ xs) ys = told-append xs ys
told-append (deactivate ∷ xs) ys = told-append xs ys

-- One handler is registered.
abbrev pub HasOne : Ptt → Type 0
HasOne s = (h : Callbacks) × (s.handlers ≡ h ∷ [])

emit-held :
    (h : Callbacks) (e : KeyEvent) (s : Ptt)
    → (emit (h ∷ []) e s).0 ≡ record s { ptt_active = held s.current_key s.ptt_active (e ∷ []) }
unfolding emit handle
emit-held h (keydown c) s = elim (Bool-cases (c == s.current_key)) [
  | inl e ↦ elim (Bool-cases s.ptt_active) [ inl f ↦ rw (e, f) refl | inr f ↦ rw (e, f) refl ]
  | inr e ↦ rw e refl
]
emit-held h (keyup c) s = elim (Bool-cases (c == s.current_key)) [
  | inl e ↦ elim (Bool-cases s.ptt_active) [ inl f ↦ rw (e, f) refl | inr f ↦ rw (e, f) refl ]
  | inr e ↦ rw e refl
]

told-emit :
    (h : Callbacks) (e : KeyEvent) (s : Ptt)
    → told (emit (h ∷ []) e s).1
      ≡ changes s.ptt_active (held s.current_key s.ptt_active (e ∷ []) ∷ [])
unfolding emit handle
told-emit h (keydown c) s = ground (arith)
told-emit h (keyup c) s = ground (arith)

pub held-append :
    (k : ℕ) (before : Bool) (e : KeyEvent) (es : List KeyEvent)
    → held k before (e ∷ es) ≡ held k (held k before (e ∷ [])) es
held-append k before (keydown c) es = refl
held-append k before (keyup c) es = refl

changes-∷ :
    (before x : Bool) (bs : List Bool)
    → changes before (x ∷ bs) ≡ changes before (x ∷ []) ++ changes x bs
changes-∷ true true bs = refl
changes-∷ true false bs = refl
changes-∷ false true bs = refl
changes-∷ false false bs = refl

one-held :
    (h : Callbacks) (e : KeyEvent) (s : Ptt)
    → s.handlers ≡ h ∷ []
    → ((emit s.handlers e s).0 ≡ record s { ptt_active = held s.current_key s.ptt_active (e ∷ []) })
      × (told (emit s.handlers e s).1
          ≡ changes s.ptt_active (held s.current_key s.ptt_active (e ∷ []) ∷ []))
one-held h e s one =
    subst
      (λ (hs : List Callbacks).
        ((emit hs e s).0 ≡ record s { ptt_active = held s.current_key s.ptt_active (e ∷ []) })
        × (told (emit hs e s).1
            ≡ changes s.ptt_active (held s.current_key s.ptt_active (e ∷ []) ∷ [])))
      (sym one) (emit-held h e s, told-emit h e s)

-- With one handler, any sequence of key events leaves the key active exactly if it is held, and tells
-- the windows each change of that and nothing else, however often a held key repeats its event.
pub emit_all-changes :
    (h : Callbacks) (es : List KeyEvent) (s : Ptt)
    → s.handlers ≡ h ∷ []
    → ((emit_all es s).0 ≡ record s { ptt_active = held s.current_key s.ptt_active es })
      × (told (emit_all es s).1 ≡ changes s.ptt_active (states s.current_key s.ptt_active es))
unfolding emit_all
emit_all-changes h [] s one = (refl, refl)
emit_all-changes h (e ∷ es) s one =
    let now = held s.current_key s.ptt_active (e ∷ []) in
    let (state, out) = emit_all-changes h es (record s { ptt_active = now }) one in
    let (first, said) = one-held h e s one in
    (
      rw (first, held-append s.current_key s.ptt_active e es) state,
      rw (first, told-append, said, out)
          (sym (changes-∷ s.ptt_active now (states s.current_key now es))),
    )
