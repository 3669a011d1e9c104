-- ===== src/Chat/Reactions.antt =====
-- The reactions of a message (`addReaction` and `removeReaction` of stores/messages.ts).
use united.Prelude.{
  ◌≡◌, refl, ap, ◌∙◌, eq_iff, All, String, str_eq, eq_refl, true, false, inl, inr, List, [], ◌∷◌,
  ◌++◌, none, some, arith, find, Bool-cases, Option-cases,
}
use united.Chat.Message.{ReactionSummary, ChatMessage, includes, react, unreact}
use united.Prelude.Dict.{lookup-insert_self, insert-insert, insert-lookup}
use united.Chat.Slice.{
  ChannelMessages, MessagesSlice, channel_of, with_channel, on_message, on_messages, add_reaction,
  remove_reaction,
}
use united.Chat.Tally.{
  has_emoji, has_reacted, IsCounted, IsTally, add_to, drop_from, add_to-IsTally, drop_from-IsTally,
  append-IsTally, drop_from-add_to, find-none,
}

first_entry : String → String → ReactionSummary
first_entry emoji pubkey = record { emoji = emoji; count = 1; user_pubkeys = pubkey ∷ [] }

react-none :
    (emoji pubkey : String) (m : ChatMessage)
    → find (λ r. str_eq r.emoji emoji) m.reactions ≡ none
    → react emoji pubkey m ≡ record m { reactions = m.reactions ++ first_entry emoji pubkey ∷ [] }
unfolding react first_entry
react-none emoji pubkey m e = rw (e, react) refl

react_new :
    (emoji pubkey : String) (m : ChatMessage) (r : ReactionSummary)
    → find (λ r. str_eq r.emoji emoji) m.reactions ≡ some r
    → includes pubkey r.user_pubkeys ≡ false
    → react emoji pubkey m ≡ record m { reactions = add_to emoji pubkey m.reactions }
unfolding react
react_new emoji pubkey m r e h = rw (e, react) (rw h refl)

react_again :
    (emoji pubkey : String) (m : ChatMessage) (r : ReactionSummary)
    → find (λ r. str_eq r.emoji emoji) m.reactions ≡ some r
    → includes pubkey r.user_pubkeys ≡ true
    → react emoji pubkey m ≡ m
unfolding react
react_again emoji pubkey m r e h = rw (e, react) (rw h refl)

first_entry-IsCounted : (emoji pubkey : String) → IsCounted (first_entry emoji pubkey)
unfolding first_entry
first_entry-IsCounted emoji pubkey = record {
  counted = refl;
  positive = omega arith;
  users = (refl, tt);
}

drop_from-append_first :
    (emoji pubkey : String) (rs : List ReactionSummary)
    → has_emoji emoji rs ≡ false
    → IsTally rs
    → drop_from emoji pubkey (rs ++ first_entry emoji pubkey ∷ []) ≡ rs
unfolding first_entry
drop_from-append_first emoji pubkey [] h t = rw (eq_refl emoji, eq_refl pubkey) refl
drop_from-append_first emoji pubkey (r ∷ rs) h t =
    ground (arith, t.0.positive, drop_from-append_first emoji pubkey rs (ground arith) t.2)

react_same-IsTally :
    (emoji pubkey : String) (m : ChatMessage) (r : ReactionSummary)
    → find (λ r. str_eq r.emoji emoji) m.reactions ≡ some r
    → IsTally m.reactions
    → IsTally (react emoji pubkey m).reactions
react_same-IsTally emoji pubkey m r e t = elim (Bool-cases (includes pubkey r.user_pubkeys)) [
  | inl old ↦ rw (react_again emoji pubkey m r e old) t
  | inr new ↦
      rw (react_new emoji pubkey m r e new)
        (add_to-IsTally emoji pubkey m.reactions (ground arith) t)
]

-- Adding a reaction and removing one both keep the tally of a message: each emoji once, each
-- count the number of its users, who are at least one and all different.
pub react-IsTally :
    (emoji pubkey : String) (m : ChatMessage)
    → IsTally m.reactions
    → IsTally (react emoji pubkey m).reactions × IsTally (unreact emoji pubkey m).reactions
unfolding unreact
react-IsTally emoji pubkey m t = (
  elim (Option-cases (find (λ r. str_eq r.emoji emoji) m.reactions)) [
    | inl e ↦ rw (react-none emoji pubkey m e) (
        append-IsTally m.reactions (first_entry emoji pubkey)
          (unfold first_entry in find-none emoji m.reactions e) (first_entry-IsCounted emoji pubkey)
          t)
    | inr (r, e) ↦ react_same-IsTally emoji pubkey m r e t
  ],
  drop_from-IsTally emoji pubkey m.reactions t,
)

-- A reaction that is new and is taken back leaves the message as it was.
pub unreact-react :
    (emoji pubkey : String) (m : ChatMessage)
    → IsTally m.reactions
    → has_reacted emoji pubkey m.reactions ≡ false
    → unreact emoji pubkey (react emoji pubkey m) ≡ m
unfolding unreact
unreact-react emoji pubkey m t h =
    elim (Option-cases (find (λ r. str_eq r.emoji emoji) m.reactions)) [
      | inl e ↦ rw (react-none emoji pubkey m e) (
          ap (λ rs. record m { reactions = rs })
            (drop_from-append_first emoji pubkey m.reactions (find-none emoji m.reactions e) t))
      | inr (r, e) ↦
          rw (react_new emoji pubkey m r e (ground arith))
            (ap (λ rs. record m { reactions = rs }) (drop_from-add_to emoji pubkey m.reactions h t))
    ]

id-react : (emoji pubkey : String) (m : ChatMessage) → (react emoji pubkey m).id ≡ m.id
unfolding react
id-react emoji pubkey m = ground arith

-- Each message with the id has a tally in which the user has not reacted with the emoji.
abbrev pub CanReact : String → String → String → List ChatMessage → Type 0
CanReact message_id emoji pubkey =
    All
      λ m. m.id ≡ message_id → IsTally m.reactions × (has_reacted emoji pubkey m.reactions ≡ false)

on_message-react :
    (message_id emoji pubkey : String) (ms : List ChatMessage)
    → CanReact message_id emoji pubkey ms
    → on_message message_id (unreact emoji pubkey) (on_message message_id (react emoji pubkey) ms)
      ≡ ms
unfolding react
on_message-react message_id emoji pubkey [] h = refl
on_message-react message_id emoji pubkey (m ∷ ms) h =
    let rest = on_message-react message_id emoji pubkey ms h.1 in
    elim (Bool-cases (str_eq m.id message_id)) [
      | inl e ↦
          let fits = h.0 ((eq_iff m.id message_id).0 e) in
          rw (e, id-react emoji pubkey m, e, rest)
            (ap (λ x. x ∷ ms) (unreact-react emoji pubkey m fits.0 fits.1))
      | inr e ↦ rw (e, e, rest) refl
    ]

on_messages-some :
    (id : String) (f : List ChatMessage → List ChatMessage) (s : MessagesSlice)
    (c : ChannelMessages)
    → channel_of id s ≡ some c
    → on_messages id f s ≡ with_channel id (record c { messages = f c.messages }) s
on_messages-some id f s c e = rw (e, on_messages) refl

-- In a channel that is there, a reaction that a user adds and takes back leaves the whole store
-- as it was, where each message with the id has a tally in which that user has not reacted with
-- the emoji.
pub remove_reaction-add_reaction :
    (id message_id emoji pubkey : String) (s : MessagesSlice) (c : ChannelMessages)
    → channel_of id s ≡ some c
    → CanReact message_id emoji pubkey c.messages
    → remove_reaction id message_id emoji pubkey (add_reaction id message_id emoji pubkey s) ≡ s
unfolding remove_reaction add_reaction
remove_reaction-add_reaction id message_id emoji pubkey s c e h =
    let f = on_message message_id (react emoji pubkey) in
    let g = on_message message_id (unreact emoji pubkey) in
    let reacted : ChannelMessages = record c { messages = f c.messages } in
    let stored = lookup-insert_self id reacted s.channel_messages in
    rw
      (
        on_messages-some id f s c e,
        on_messages-some id g (with_channel id reacted s) reacted stored,
        on_message-react message_id emoji pubkey c.messages h,
      )
      (ap (λ d. record s { channel_messages = d })
        (insert-insert id c reacted s.channel_messages ∙ insert-lookup id c s.channel_messages e))
