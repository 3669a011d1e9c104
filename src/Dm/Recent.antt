-- ===== src/Dm/Recent.antt =====
-- The order of the conversations (`sortConversations` of stores/dm.ts).
use united.Prelude.{◌≤◌, inl, inr, List, [], ◌∷◌, arith, All, All-imp, leb, Bool-cases}
use united.Dm.Types.{DmConversation}
use united.Dm.Slice.{insert_conversation, sort_conversations}

-- The most recent first.
abbrev pub IsRecentFirst : List DmConversation → Type 0
IsRecentFirst [] = Unit
IsRecentFirst (c ∷ cs) = All (λ d. d.last_message_at ≤ c.last_message_at) cs × IsRecentFirst cs

insert_conversation-All :
    (P : DmConversation → Type 0) (c : DmConversation) (cs : List DmConversation)
    → P c
    → All P cs
    → All P (insert_conversation c cs)
unfolding insert_conversation
insert_conversation-All P c [] h a = (h, tt)
insert_conversation-All P c (d ∷ ds) h a =
    elim (Bool-cases (leb d.last_message_at c.last_message_at)) [
      | inl e ↦ rw e (h, a)
      | inr e ↦ rw e (a.0, insert_conversation-All P c ds h a.1)
    ]

insert_conversation-IsRecentFirst :
    (c : DmConversation) (cs : List DmConversation)
    → IsRecentFirst cs
    → IsRecentFirst (insert_conversation c cs)
unfolding insert_conversation
insert_conversation-IsRecentFirst c [] s = (tt, tt)
insert_conversation-IsRecentFirst c (d ∷ ds) s =
    elim (Bool-cases (leb d.last_message_at c.last_message_at)) [
      | inl e ↦
          let below : d.last_message_at ≤ c.last_message_at = ground arith in
          rw e ((below, All-imp (λ x h. omega (arith, h, below)) ds s.0), s)
      | inr e ↦ rw e (
        insert_conversation-All (λ x. x.last_message_at ≤ d.last_message_at) c ds (ground arith)
            s.0,
        insert_conversation-IsRecentFirst c ds s.1,
      )
    ]

pub sort_conversations-IsRecentFirst :
    (cs : List DmConversation) → IsRecentFirst (sort_conversations cs)
unfolding sort_conversations
sort_conversations-IsRecentFirst [] = tt
sort_conversations-IsRecentFirst (c ∷ cs) =
    insert_conversation-IsRecentFirst c (sort_conversations cs)
      (sort_conversations-IsRecentFirst cs)
