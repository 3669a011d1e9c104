-- ===== src/Chat/Tally.antt =====
-- Tallies: the lists of reactions of a message, and the two changes of such a list
-- (`addReaction` and `removeReaction` of stores/messages.ts).
use united.Prelude.{
  ◌≡◌, ◌<◌, refl, ap, ◌∙◌, String, str_eq, eq_iff, eq_refl, Bool, true, false, not, inl, inr, List,
  [], ◌∷◌, ◌++◌, map, none, some, arith, length, keep, any, find, ltb, length-append, any-append,
  Bool-cases, if◌then◌else◌,
}
use united.Chat.Message.{ReactionSummary, includes, add_user, drop_user}

abbrev pub has_emoji : String → List ReactionSummary → Bool
has_emoji emoji = any (λ r. str_eq r.emoji emoji)

-- Nobody stands twice in a list of users.
abbrev pub IsUserSet : List String → Type 0
IsUserSet [] = Unit
IsUserSet (u ∷ us) = (includes u us ≡ false) × IsUserSet us

-- The count is that of the users, of whom there is at least one.
pub record IsCounted (r : ReactionSummary) : Type 0 where
  pub counted : r.count ≡ length r.user_pubkeys
  pub positive : 0 < r.count
  pub users : IsUserSet r.user_pubkeys

-- A tally: each emoji once, and each entry counted.
abbrev pub IsTally : List ReactionSummary → Type 0
IsTally [] = Unit
IsTally (r ∷ rs) = IsCounted r × (has_emoji r.emoji rs ≡ false) × IsTally rs

-- Whether the user is among those of the emoji.
abbrev pub has_reacted : String → String → List ReactionSummary → Bool
has_reacted emoji pubkey rs = elim (find (λ r. str_eq r.emoji emoji) rs) [
  | none ↦ false
  | some r ↦ includes pubkey r.user_pubkeys
]

abbrev pub add_to : String → String → List ReactionSummary → List ReactionSummary
add_to emoji pubkey = map (λ r. if str_eq r.emoji emoji then add_user pubkey r else r)

abbrev pub drop_from : String → String → List ReactionSummary → List ReactionSummary
drop_from emoji pubkey rs =
    keep (λ r. ltb 0 r.count) (map (λ r. if str_eq r.emoji emoji then drop_user pubkey r else r) rs)

abbrev others : String → List String → List String
others pubkey = keep (λ pk. not (str_eq pk pubkey))

others_absent :
    (pubkey : String) (us : List String) → includes pubkey us ≡ false → others pubkey us ≡ us
others_absent pubkey [] h = refl
others_absent pubkey (u ∷ us) h = ground (arith, others_absent pubkey us)

others-append_self :
    (pubkey : String) (us : List String)
    → includes pubkey us ≡ false
    → others pubkey (us ++ pubkey ∷ []) ≡ us
others-append_self pubkey [] h = rw (eq_refl pubkey) refl
others-append_self pubkey (u ∷ us) h = ground (arith, others-append_self pubkey us)

includes-others :
    (pubkey u : String) (us : List String)
    → includes u us ≡ false
    → includes u (others pubkey us) ≡ false
includes-others pubkey u [] h = refl
includes-others pubkey u (x ∷ us) h = ground (arith, includes-others pubkey u us)

others-IsUserSet :
    (pubkey : String) (us : List String) → IsUserSet us → IsUserSet (others pubkey us)
others-IsUserSet pubkey [] d = tt
others-IsUserSet pubkey (u ∷ us) d = elim (Bool-cases (str_eq u pubkey)) [
  | inl e ↦ rw e (others-IsUserSet pubkey us d.1)
  | inr e ↦ rw e (includes-others pubkey u us d.0, others-IsUserSet pubkey us d.1)
]

append-IsUserSet :
    (us : List String) (pubkey : String)
    → includes pubkey us ≡ false
    → IsUserSet us
    → IsUserSet (us ++ pubkey ∷ [])
append-IsUserSet [] pubkey h d = (refl, tt)
append-IsUserSet (u ∷ us) pubkey h d = (
  ground (arith, eq_iff u pubkey, eq_iff pubkey u, any-append (λ x. str_eq x u) us (pubkey ∷ [])),
  append-IsUserSet us pubkey (ground arith) d.1,
)

add_user-IsCounted :
    (pubkey : String) (r : ReactionSummary)
    → includes pubkey r.user_pubkeys ≡ false
    → IsCounted r
    → IsCounted (add_user pubkey r)
add_user-IsCounted pubkey r h c = record {
  counted = omega (arith, c.counted, length-append r.user_pubkeys (pubkey ∷ []));
  positive = omega arith;
  users = append-IsUserSet r.user_pubkeys pubkey h c.users;
}

drop-add_user :
    (pubkey : String) (r : ReactionSummary)
    → includes pubkey r.user_pubkeys ≡ false
    → IsCounted r
    → drop_user pubkey (add_user pubkey r) ≡ r
drop-add_user pubkey r h c = ground (arith, others-append_self pubkey r.user_pubkeys h, c.counted)

-- Without the emoji nothing changes.
has_emoji-add_to :
    (emoji pubkey e : String) (rs : List ReactionSummary)
    → has_emoji e (add_to emoji pubkey rs) ≡ has_emoji e rs
has_emoji-add_to emoji pubkey e [] = refl
has_emoji-add_to emoji pubkey e (r ∷ rs) = ground (arith, has_emoji-add_to emoji pubkey e rs)

add_to_absent :
    (emoji pubkey : String) (rs : List ReactionSummary)
    → has_emoji emoji rs ≡ false
    → add_to emoji pubkey rs ≡ rs
add_to_absent emoji pubkey [] h = refl
add_to_absent emoji pubkey (r ∷ rs) h = ground (arith, add_to_absent emoji pubkey rs)

drop_from_absent :
    (emoji pubkey : String) (rs : List ReactionSummary)
    → has_emoji emoji rs ≡ false
    → IsTally rs
    → drop_from emoji pubkey rs ≡ rs
drop_from_absent emoji pubkey [] h t = refl
drop_from_absent emoji pubkey (r ∷ rs) h t =
    ground (arith, t.0.positive, drop_from_absent emoji pubkey rs (ground arith) t.2)

pub find-none :
    (emoji : String) (rs : List ReactionSummary)
    → find (λ r. str_eq r.emoji emoji) rs ≡ none
    → has_emoji emoji rs ≡ false
find-none emoji [] h = refl
find-none emoji (r ∷ rs) h = ground (arith, find-none emoji rs)

pub add_to-IsTally :
    (emoji pubkey : String) (rs : List ReactionSummary)
    → has_reacted emoji pubkey rs ≡ false
    → IsTally rs
    → IsTally (add_to emoji pubkey rs)
add_to-IsTally emoji pubkey [] h t = tt
add_to-IsTally emoji pubkey (r ∷ rs) h t = elim (Bool-cases (str_eq r.emoji emoji)) [
  | inl e ↦
      rw (e, add_to_absent emoji pubkey rs (ground (arith, eq_iff r.emoji emoji)))
        (add_user-IsCounted pubkey r (ground arith) t.0, t.1, t.2)
  | inr e ↦ rw e (
    t.0,
    has_emoji-add_to emoji pubkey r.emoji rs ∙ t.1,
    add_to-IsTally emoji pubkey rs (ground arith) t.2,
  )
]

pub drop_from-add_to :
    (emoji pubkey : String) (rs : List ReactionSummary)
    → has_reacted emoji pubkey rs ≡ false
    → IsTally rs
    → drop_from emoji pubkey (add_to emoji pubkey rs) ≡ rs
drop_from-add_to emoji pubkey [] h t = refl
drop_from-add_to emoji pubkey (r ∷ rs) h t =
    let shown : ltb 0 r.count ≡ true = ground (arith, t.0.positive) in
    elim (Bool-cases (str_eq r.emoji emoji)) [
      | inl e ↦
          let absent : has_emoji emoji rs ≡ false = ground (arith, eq_iff r.emoji emoji) in
          let kept : ltb 0 (length (others pubkey (r.user_pubkeys ++ pubkey ∷ []))) ≡ true =
            ground (arith, others-append_self pubkey r.user_pubkeys, t.0.positive, t.0.counted) in
          rw
            (
              e,
              add_to_absent emoji pubkey rs absent,
              e,
              drop_from_absent emoji pubkey rs absent t.2,
            )
            (rw (drop-add_user pubkey r (ground arith) t.0) (rw kept refl))
      | inr e ↦ rw (e, e, shown) (ap (◌∷◌ r) (drop_from-add_to emoji pubkey rs (ground arith) t.2))
    ]

has_emoji-drop_from :
    (emoji pubkey e : String) (rs : List ReactionSummary)
    → has_emoji e rs ≡ false
    → has_emoji e (drop_from emoji pubkey rs) ≡ false
has_emoji-drop_from emoji pubkey e [] h = refl
has_emoji-drop_from emoji pubkey e (r ∷ rs) h =
    ground (arith, has_emoji-drop_from emoji pubkey e rs)

pub drop_from-IsTally :
    (emoji pubkey : String) (rs : List ReactionSummary)
    → IsTally rs
    → IsTally (drop_from emoji pubkey rs)
drop_from-IsTally emoji pubkey [] t = tt
drop_from-IsTally emoji pubkey (r ∷ rs) t =
    let rest = drop_from-IsTally emoji pubkey rs t.2 in
    let fresh = has_emoji-drop_from emoji pubkey r.emoji rs t.1 in
    let shown : ltb 0 r.count ≡ true = ground (arith, t.0.positive) in
    elim (Bool-cases (str_eq r.emoji emoji)) [
      | inl e ↦ elim (Bool-cases (ltb 0 (length (others pubkey r.user_pubkeys)))) [
        | inl left ↦
            rw (e, left)
              (
                record {
                  counted = refl;
                  positive = ground arith;
                  users = others-IsUserSet pubkey r.user_pubkeys t.0.users;
                },
                fresh,
                rest,
              )
        | inr gone ↦ rw (e, gone) rest
      ]
      | inr e ↦ rw (e, shown) (t.0, fresh, rest)
    ]

pub append-IsTally :
    (rs : List ReactionSummary) (r : ReactionSummary)
    → has_emoji r.emoji rs ≡ false
    → IsCounted r
    → IsTally rs
    → IsTally (rs ++ r ∷ [])
append-IsTally [] r h c t = (c, refl, tt)
append-IsTally (x ∷ rs) r h c t = (
  t.0,
  ground (
    arith,
    eq_iff x.emoji r.emoji,
    eq_iff r.emoji x.emoji,
    any-append (λ y. str_eq y.emoji x.emoji) rs (r ∷ []),
  ),
  append-IsTally rs r (ground arith) c t.2,
)
