-- ===== src/Discovery/Attempts.antt =====
-- The attempts to reconnect come to an end (p2p/discovery.ts).
use united.Prelude.{
  ℕ, ◌+◌, ◌≤◌, ◌<◌, leb, ◌≡◌, refl, ap, String, true, false, List, [], ◌∷◌, length, All, none, some,
  arith,
}
use united.Discovery.Reconnect.{
  ReconnectState, calculate_backoff, schedule_reconnect, try_reconnect,
}

-- Attempts without an answer, by the random parts of the delays that follow them.
abbrev pub fail_all : List ℕ → ReconnectState → ReconnectState
fail_all [] s = s
fail_all (j ∷ js) s = fail_all js (try_reconnect false j s).0

abbrev pub delay_of : ReconnectState → ℕ
delay_of s = elim s.timer [ none ↦ 0 | some d ↦ d ]

-- How long those attempts wait, with the one that follows them.
abbrev pub waited : List ℕ → ReconnectState → ℕ
waited [] s = delay_of s
waited (j ∷ js) s = delay_of s + waited js (try_reconnect false j s).0

-- The delays of some attempts in a row, from the `n`-th on.
abbrev total_delay : ℕ → List ℕ → ℕ
total_delay n [] = 0
total_delay n (j ∷ js) = calculate_backoff n j + total_delay (n + 1) js

-- The `a`-th attempt has its timer.
record IsTrying (a j : ℕ) (s : ReconnectState) : Type 0 where
  at : s.attempt ≡ a
  timed : s.timer ≡ some (calculate_backoff a j)

schedule_reconnect-IsTrying :
    (a j : ℕ) (s : ReconnectState) → s.attempt ≡ a → a < 7 → IsTrying a j (schedule_reconnect j s).0
unfolding schedule_reconnect
schedule_reconnect-IsTrying a j s e less =
    let more : leb 7 s.attempt ≡ false = ground (arith, e) in
    rw more (record { at = e; timed = ap (λ (n : ℕ). some (calculate_backoff n j)) e })

try_reconnect-IsTrying :
    (a i j : ℕ) (s : ReconnectState)
    → IsTrying a i s
    → a + 1 < 7
    → IsTrying (a + 1) j (try_reconnect false j s).0
unfolding try_reconnect
try_reconnect-IsTrying a i j s t less =
    schedule_reconnect-IsTrying (a + 1) j _ (ap (λ (n : ℕ). n + 1) t.at) less

delay_of-timed : (s : ReconnectState) (d : ℕ) → s.timer ≡ some d → delay_of s ≡ d
delay_of-timed s d e = rw e refl

waited-total_delay :
    (a i : ℕ) (js : List ℕ) (s : ReconnectState)
    → a + length js < 7
    → IsTrying a i s
    → waited js s ≡ calculate_backoff a i + total_delay (a + 1) js
waited-total_delay a i [] s less t = omega (arith, delay_of-timed s _ t.timed)
waited-total_delay a i (j ∷ js) s less t = omega (
  arith,
  delay_of-timed s _ t.timed,
  waited-total_delay (a + 1) j js (try_reconnect false j s).0 (omega arith)
      (try_reconnect-IsTrying a i j s t (omega arith)),
)

fail_all-attempt :
    (a i : ℕ) (js : List ℕ) (s : ReconnectState)
    → a + length js < 7
    → IsTrying a i s
    → (fail_all js s).attempt ≡ a + length js
fail_all-attempt a i [] s less t = omega (arith, t.at)
fail_all-attempt a i (j ∷ js) s less t = omega (
  arith,
  fail_all-attempt (a + 1) j js (try_reconnect false j s).0 (omega arith)
      (try_reconnect-IsTrying a i j s t (omega arith)),
)

try_reconnect-seventh :
    (j : ℕ) (s : ReconnectState)
    → s.attempt ≡ 6
    → ((try_reconnect false j s).1 ≡ true) × ((try_reconnect false j s).0.timer ≡ none)
unfolding try_reconnect schedule_reconnect
try_reconnect-seventh j s e = ground (arith, e)

-- Six delays after the first, each with a random part of at most 200 ms.
total_delay_bounds :
    (js : List ℕ)
    → length js ≡ 6
    → All (λ j. j ≤ 200) js
    → (90000 ≤ total_delay 1 js) × (total_delay 1 js ≤ 91200)
unfolding calculate_backoff
total_delay_bounds [] e a = absurd (omega arith)
total_delay_bounds (j1 ∷ []) e a = absurd (omega arith)
total_delay_bounds (j1 ∷ j2 ∷ []) e a = absurd (omega arith)
total_delay_bounds (j1 ∷ j2 ∷ j3 ∷ []) e a = absurd (omega arith)
total_delay_bounds (j1 ∷ j2 ∷ j3 ∷ j4 ∷ []) e a = absurd (omega arith)
total_delay_bounds (j1 ∷ j2 ∷ j3 ∷ j4 ∷ j5 ∷ []) e a = absurd (omega arith)
total_delay_bounds (j1 ∷ j2 ∷ j3 ∷ j4 ∷ j5 ∷ j6 ∷ []) e (a1, (a2, (a3, (a4, (a5, (a6, a7)))))) =
    (omega arith, omega arith)
total_delay_bounds (j1 ∷ j2 ∷ j3 ∷ j4 ∷ j5 ∷ j6 ∷ j7 ∷ js) e a = absurd (omega arith)

-- A peer that is gone and never answers is tried seven times: after the seventh attempt the directory
-- is asked and no timer is left. The attempts wait for 91 seconds together, and for at most 1.4 seconds
-- more, where the random part of each delay is at most 200 ms.
pub try_reconnect-waited :
    (peer_id : String) (i j : ℕ) (js : List ℕ)
    → i ≤ 200
    → All (λ k. k ≤ 200) js
    → length js ≡ 6
    → let s = (schedule_reconnect i (record { peer_id = peer_id; attempt = 0; timer = none })).0 in
      ((try_reconnect false j (fail_all js s)).1 ≡ true)
      × (((try_reconnect false j (fail_all js s)).0.timer ≡ none)
          × ((91000 ≤ waited js s) × (waited js s ≤ 92400)))
unfolding calculate_backoff
try_reconnect-waited peer_id i j js small smalls six =
    let t =
      schedule_reconnect-IsTrying 0 i (record { peer_id = peer_id; attempt = 0; timer = none }) refl
        (omega arith) in
    let s : ReconnectState =
      (schedule_reconnect i (record { peer_id = peer_id; attempt = 0; timer = none })).0 in
    let (asked, untimed) =
      try_reconnect-seventh j (fail_all js s)
        (omega (arith, fail_all-attempt 0 i js s (omega arith) t)) in
    let (least, most) = total_delay_bounds js six smalls in
    let sum = waited-total_delay 0 i js s (omega arith) t in
    (asked, (untimed, (omega (arith, sum), omega (arith, sum))))
