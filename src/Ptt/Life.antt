-- ===== src/Ptt/Life.antt =====
-- The life of the hook, and what the windows hear last (voice/ptt.ts).
use united.Prelude.{
  ℕ, ◌≡◌, ◌∙◌, refl, ap, sym, Bool, true, false, List, [], ◌∷◌, ◌++◌, Option, some, if◌then◌else◌,
  inl, inr, if_either, Bool-cases,
}
use united.Ptt.Hook.{
  Callbacks, Output, Ptt, initial, drop_last, stop_ptt, start_ptt, change_ptt_key, chosen_key,
  KeyEvent, emit, emit_all,
}
use mathlib.Core.List.{append-nil}
use united.Ptt.Keys.{held, held-append, states, changes, told, emit_all-changes}

-- A module that runs has one handler, its own, and one that does not has none.
pub record IsClean (s : Ptt) : Type 0 where
  pub runs : s.running ≡ true → (s.own ≡ true) × ((h : Callbacks) × (s.handlers ≡ h ∷ []))
  pub rests : s.running ≡ false → (s.ptt_active ≡ false) × (s.handlers ≡ [])

stop_ptt-IsClean : (s : Ptt) → IsClean s → IsClean (stop_ptt s) × ((stop_ptt s).handlers ≡ [])
unfolding stop_ptt
stop_ptt-IsClean s c = elim (Bool-cases s.running) [
  | inl e ↦
      let (own, (h, one)) = c.runs e in
      rw (e, own, one) (record { runs = λ f. absurd (cc); rests = λ f. (refl, refl) }, refl)
  | inr e ↦
      let same : stop_ptt s ≡ s =
        ap
          (λ (b : Bool).
            if b
            then record s {
              handlers = if s.own then drop_last s.handlers else s.handlers;
              own = false;
              ptt_active = false;
              running = false;
            }
            else s)
          e in
      let (off, empty) = c.rests e in rw same (c, empty)
]

start_ptt-IsClean :
    (key : Option ℕ) (callbacks : Callbacks) (s : Ptt)
    → IsClean s
    → IsClean (start_ptt key callbacks true s).0
      × ((start_ptt key callbacks true s).0.handlers ≡ callbacks ∷ [])
unfolding start_ptt
start_ptt-IsClean key callbacks s c =
    let (clean, empty) = stop_ptt-IsClean s c in
    let one : (stop_ptt s).handlers ++ callbacks ∷ [] ≡ callbacks ∷ [] =
      ap (λ (hs : List Callbacks). hs ++ callbacks ∷ []) empty in
    (record { runs = λ f. (refl, (callbacks, one)); rests = λ f. absurd (cc) }, one)

-- A hook without handlers hears nothing.
emit_all-[] : (es : List KeyEvent) (s : Ptt) → s.handlers ≡ [] → emit_all es s ≡ (s, [])
unfolding emit_all emit
emit_all-[] [] s e = refl
emit_all-[] (k ∷ es) s e =
    let silent : emit s.handlers k s ≡ (s, []) = ap (λ (hs : List Callbacks). emit hs k s) e in
    rw (silent, emit_all-[] es s e) refl

emit_all-IsClean : (es : List KeyEvent) (s : Ptt) → IsClean s → IsClean (emit_all es s).0
emit_all-IsClean es s c = elim (Bool-cases s.running) [
  | inl f ↦
      let (own, (h, one)) = c.runs f in
      rw ((emit_all-changes h es s one).0) (record { runs = c.runs; rests = λ g. absurd (cc) })
  | inr f ↦ rw (emit_all-[] es s (c.rests f).1) c
]

-- The calls that start and stop the hook where the package does not throw, and the keys.
pub data Step (s : Ptt) : Ptt → Type 0 where
  starts : (key : Option ℕ) (callbacks : Callbacks) → Step s (start_ptt key callbacks true s).0
  stops : Step s (stop_ptt s)
  changes_key : (key : ℕ) → Step s (change_ptt_key key true s).0
  keys : (e : KeyEvent) → Step s (emit_all (e ∷ []) s).0

pub data Reach (default_ptt_key : ℕ) : Ptt → Type 0 where
  start : Reach default_ptt_key (initial default_ptt_key)
  next : {s t : Ptt} → Reach default_ptt_key s → Step s t → Reach default_ptt_key t

Step-IsClean : {s t : Ptt} → Step s t → IsClean s → IsClean t
unfolding change_ptt_key
Step-IsClean {s} (starts key callbacks) c = (start_ptt-IsClean key callbacks s c).0
Step-IsClean {s} stops c = (stop_ptt-IsClean s c).0
Step-IsClean {s} (changes_key key) c =
    let rekeyed : IsClean (record s { current_key = key }) = record {
      runs = c.runs;
      rests = c.rests;
    } in
    if_either (λ (r : Ptt × Bool). IsClean r.0) s.running
      (start_ptt-IsClean (some key) _ _ (stop_ptt-IsClean _ rekeyed).0).0 rekeyed
Step-IsClean {s} (keys e) c = emit_all-IsClean (e ∷ []) s c

pub Reach-IsClean : {default_ptt_key : ℕ} {s : Ptt} → Reach default_ptt_key s → IsClean s
unfolding initial
Reach-IsClean start = record { runs = λ e. absurd (cc); rests = λ e. (refl, refl) }
Reach-IsClean (next r s) = Step-IsClean s (Reach-IsClean r)

start_ptt_state :
    (key : Option ℕ) (callbacks : Callbacks) (s : Ptt)
    → ((start_ptt key callbacks true s).0.current_key ≡ chosen_key key s)
      × ((start_ptt key callbacks true s).0.ptt_active ≡ false)
unfolding start_ptt
start_ptt_state key callbacks s = (refl, refl)

-- In every state that the module reaches, to start the hook and press keys leaves the chosen key
-- active exactly if it is held, and tells the windows each change of that and nothing else: earlier
-- runs, other keys and repeated events do not count.
pub start_ptt-changes :
    {default_ptt_key : ℕ} {s : Ptt} (key : Option ℕ) (callbacks : Callbacks) (es : List KeyEvent)
    → Reach default_ptt_key s
    → ((emit_all es (start_ptt key callbacks true s).0).0.ptt_active
        ≡ held (chosen_key key s) false es)
      × (told (emit_all es (start_ptt key callbacks true s).0).1
          ≡ changes false (states (chosen_key key s) false es))
unfolding start_ptt
start_ptt-changes {s = s} key callbacks es r =
    let one = (start_ptt-IsClean key callbacks s (Reach-IsClean r)).1 in
    let (state, out) = emit_all-changes callbacks es (start_ptt key callbacks true s).0 one in
    (ap (λ (t : Ptt). t.ptt_active) state, out)

silent-IsClean : (s : Ptt) → IsClean s → s.handlers ≡ [] → s.ptt_active ≡ false
silent-IsClean s c e = elim (Bool-cases s.running) [
  | inl f ↦ let (own, (h, one)) = c.runs f in absurd (cc)
  | inr f ↦ (c.rests f).0
]

-- The last value, or the one before where there is none.
abbrev pub last_or : Bool → List Bool → Bool
last_or b [] = b
last_or b (x ∷ xs) = last_or x xs

last_or-changes : (b : Bool) (bs : List Bool) → last_or b (changes b bs) ≡ last_or b bs
last_or-changes b [] = refl
last_or-changes true (true ∷ bs) = last_or-changes true bs
last_or-changes true (false ∷ bs) = last_or-changes false bs
last_or-changes false (true ∷ bs) = last_or-changes true bs
last_or-changes false (false ∷ bs) = last_or-changes false bs

last_or-states : (k : ℕ) (b : Bool) (es : List KeyEvent) → last_or b (states k b es) ≡ held k b es
last_or-states k b [] = refl
last_or-states k b (e ∷ es) = last_or-states k (held k b (e ∷ [])) es ∙ sym (held-append k b e es)

-- To stop the hook while the chosen key is held leaves the windows told that it is active, though it is
-- not: no key event before the next start broadcasts anything, and what they were told last is still that
-- it is active.
pub stop_ptt-told :
    {default_ptt_key : ℕ} {s : Ptt} (key : Option ℕ) (callbacks : Callbacks)
    (es later : List KeyEvent)
    → Reach default_ptt_key s
    → held (chosen_key key s) false es ≡ true
    → let t = emit_all es (start_ptt key callbacks true s).0 in
      let u = emit_all later (stop_ptt t.0) in
      (u.0.ptt_active ≡ false) × ((u.1 ≡ []) × (last_or false (told t.1 ++ told u.1) ≡ true))
unfolding start_ptt
stop_ptt-told {s = s} key callbacks es later r down =
    let (clean, one) = start_ptt-IsClean key callbacks s (Reach-IsClean r) in
    let (state, out) = emit_all-changes callbacks es (start_ptt key callbacks true s).0 one in
    let (rests, silent) = stop_ptt-IsClean _ (emit_all-IsClean es _ clean) in
    let deaf = emit_all-[] later _ silent in
    (
      ap (λ (u : Ptt × List Output). u.0.ptt_active) deaf ∙ silent-IsClean _ rests silent,
      (
        ap (λ (u : Ptt × List Output). u.1) deaf,
        rw (deaf, append-nil, out, last_or-changes, last_or-states) down,
      ),
    )
