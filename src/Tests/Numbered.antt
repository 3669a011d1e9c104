-- ===== src/Tests/Numbered.antt =====
-- Long windows of test messages, numbered one after the other.
use united.Prelude.{
  ℕ, zero, suc, ◌+◌, ◌≡◌, ◌≤◌, refl, false, List, [], ◌∷◌, none, arith, length, All, All-imp,
}
use united.Prelude.Sort.{has_key, IsDistinct}
use united.Chat.Message.{ChatMessage}
use united.Chat.Slice.{sequence}

abbrev pub message : ℕ → ChatMessage
message n = record {
  id = "m";
  channel_id = "general";
  sender_pubkey = "alice";
  sender_display_name = "Alice";
  content = "hello";
  timestamp = "2024-01-01T00:00:00Z";
  server_sequence = n;
  reply_to_id = none;
  reply_to_preview = none;
  edited_at = none;
  reactions = [];
  block_refs = none;
}

-- `k` messages from the number `n` on.
unfoldable pub numbered : ℕ → ℕ → List ChatMessage
numbered n zero = []
numbered n (suc k) = message n ∷ numbered (suc n) k

pub length-numbered : (n k : ℕ) → length (numbered n k) ≡ k
unfolding numbered
length-numbered n zero = refl
length-numbered n (suc k) = omega (arith, length-numbered (suc n) k)

pub numbered-All-ge : (n k : ℕ) → All (λ m. n ≤ sequence m) (numbered n k)
unfolding numbered
numbered-All-ge n zero = tt
numbered-All-ge n (suc k) = (
  omega arith,
  All-imp (λ m h. omega (arith, h)) (numbered (suc n) k) (numbered-All-ge (suc n) k),
)

pub numbered_below : (n top k : ℕ) → n + k ≤ top → has_key sequence top (numbered n k) ≡ false
unfolding numbered
numbered_below n top zero h = refl
numbered_below n top (suc k) h = ground (arith, numbered_below (suc n) top k (omega (arith, h)))

pub numbered_above : (low n k : ℕ) → suc low ≤ n → has_key sequence low (numbered n k) ≡ false
unfolding numbered
numbered_above low n zero h = refl
numbered_above low n (suc k) h = ground (arith, numbered_above low (suc n) k (omega (arith, h)))

pub numbered-IsDistinct : (n k : ℕ) → IsDistinct sequence (numbered n k)
unfolding numbered
numbered-IsDistinct n zero = tt
numbered-IsDistinct n (suc k) =
    (numbered_above n (suc n) k (omega arith), numbered-IsDistinct (suc n) k)
