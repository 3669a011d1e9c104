-- ===== src/Presence/Typing.antt =====
-- Who is typing, and the timers that end it (stores/presence.ts).
use united.Prelude.{
  ◌≡◌, ◌≢◌, refl, sym, subst, String, str_eq, eq_iff, Bool, false, inl, inr, List, [], ◌∷◌, ◌++◌,
  Option, none, some, arith, any, Bool-cases, Option-cases,
}
use united.Prelude.Dict.{Dict, lookup, insert, erase, lookup-insert, lookup-erase}
use united.Presence.Slice.{
  PresenceStatus, PresenceInfo, TypingUser, Timer, PresenceSlice, empty_presence_slice,
  set_presence, set_bulk_presence, clear_timeout, is_user, without_user, typing_in, add_typing_user,
  store_typing, remove_typing_user, clear_typing_for_channel, timer_fires,
}

abbrev pub is_listed : String → List TypingUser → Bool
is_listed user_id = any (is_user user_id)

-- Nobody is listed twice.
abbrev pub AreUsersOnce : List TypingUser → Type 0
AreUsersOnce [] = Unit
AreUsersOnce (u ∷ us) = (is_listed u.user_id us ≡ false) × AreUsersOnce us

is_listed-without_user :
    (a b : String) (us : List TypingUser)
    → is_listed a us ≡ false
    → is_listed a (without_user b us) ≡ false
is_listed-without_user a b [] h = refl
is_listed-without_user a b (u ∷ us) h = ground (arith, is_listed-without_user a b us)

without_user_gone : (a : String) (us : List TypingUser) → is_listed a (without_user a us) ≡ false
without_user_gone a [] = refl
without_user_gone a (u ∷ us) = ground (arith, without_user_gone a us)

without_user-AreUsersOnce :
    (a : String) (us : List TypingUser) → AreUsersOnce us → AreUsersOnce (without_user a us)
without_user-AreUsersOnce a [] h = tt
without_user-AreUsersOnce a (u ∷ us) h = elim (Bool-cases (is_user a u)) [
  | inl e ↦ rw e (without_user-AreUsersOnce a us h.1)
  | inr e ↦ rw e (is_listed-without_user u.user_id a us h.0, without_user-AreUsersOnce a us h.1)
]

is_listed-append_one :
    (a : String) (us : List TypingUser) (u : TypingUser)
    → is_listed a us ≡ false
    → is_user a u ≡ false
    → is_listed a (us ++ u ∷ []) ≡ false
is_listed-append_one a [] u h ne = rw ne refl
is_listed-append_one a (v ∷ us) u h ne = ground (arith, is_listed-append_one a us u)

append_one-AreUsersOnce :
    (us : List TypingUser) (u : TypingUser)
    → is_listed u.user_id us ≡ false
    → AreUsersOnce us
    → AreUsersOnce (us ++ u ∷ [])
append_one-AreUsersOnce [] u h k = (refl, tt)
append_one-AreUsersOnce (v ∷ us) u h k = (
  is_listed-append_one v.user_id us u k.0
      (ground (arith, eq_iff v.user_id u.user_id, eq_iff u.user_id v.user_id)),
  append_one-AreUsersOnce us u (ground arith) k.1,
)

-- A list of users that is stored is not empty, and nobody stands in it twice.
pub record IsTypingList (us : List TypingUser) : Type 0 where
  pub nonempty : us ≢ []
  pub once : AreUsersOnce us

abbrev pub AreTypingLists : Dict (List TypingUser) → Type 0
AreTypingLists d = (id : String) (us : List TypingUser) → lookup id d ≡ some us → IsTypingList us

insert-AreTypingLists :
    (id : String) (us : List TypingUser) (d : Dict (List TypingUser))
    → IsTypingList us
    → AreTypingLists d
    → AreTypingLists (insert id us d)
insert-AreTypingLists id us d w v j vs e = elim (Bool-cases (str_eq id j)) [
  | inl same ↦ subst IsTypingList {x = us} {y = vs} (ground (arith, lookup-insert id j us d)) w
  | inr other ↦ v j vs (ground (arith, lookup-insert id j us d))
]

erase-AreTypingLists :
    (id : String) (d : Dict (List TypingUser)) → AreTypingLists d → AreTypingLists (erase id d)
erase-AreTypingLists id d v j vs e = elim (Bool-cases (str_eq id j)) [
  | inl same ↦ absurd (ground (arith, lookup-erase id j d))
  | inr other ↦ v j vs (ground (arith, lookup-erase id j d))
]

store_typing-AreTypingLists :
    (id : String) (us : List TypingUser) (d : Dict (List TypingUser))
    → AreUsersOnce us
    → AreTypingLists d
    → AreTypingLists (store_typing id us d)
store_typing-AreTypingLists id [] d h v = erase-AreTypingLists id d v
store_typing-AreTypingLists id (u ∷ us) d h v =
    insert-AreTypingLists id (u ∷ us) d (record { nonempty = λ e. cc; once = h }) v

append_one_nonempty : (us : List TypingUser) (u : TypingUser) → us ++ u ∷ [] ≢ []
append_one_nonempty [] u e = cc
append_one_nonempty (v ∷ us) u e = cc

pub data Step (s : PresenceSlice) : PresenceSlice → Type 0 where
  appears :
      (pubkey : String) (status : PresenceStatus) (name : String)
      → Step s (set_presence pubkey status name s)
  all_appear : (updates : List (String × PresenceInfo)) → Step s (set_bulk_presence updates s)
  types : (id user name : String) → Step s (add_typing_user id user name s)
  stops : (id user : String) → Step s (remove_typing_user id user s)
  clears : (id : String) → Step s (clear_typing_for_channel id s)
  fires : (t : Timer) → Step s (timer_fires t s)

pub data Reach : PresenceSlice → Type 0 where
  start : Reach empty_presence_slice
  next : {s t : PresenceSlice} → Reach s → Step s t → Reach t

set_bulk_presence-typing_users :
    (updates : List (String × PresenceInfo)) (s : PresenceSlice)
    → (set_bulk_presence updates s).typing_users ≡ s.typing_users
unfolding set_bulk_presence
set_bulk_presence-typing_users [] s = refl
set_bulk_presence-typing_users ((pubkey, info) ∷ updates) s =
    set_bulk_presence-typing_users updates _

typing_in-AreUsersOnce :
    (id : String) (s : PresenceSlice)
    → AreTypingLists s.typing_users
    → AreUsersOnce (typing_in id s)
typing_in-AreUsersOnce id s v = go (lookup id s.typing_users) refl
  where
    go :
        (o : Option (List TypingUser))
        → lookup id s.typing_users ≡ o
        → AreUsersOnce (elim o [ none ↦ [] | some us ↦ us ])
    go none e = tt
    go (some us) e = (v id us e).once

remove_typing_user-AreTypingLists :
    (id user : String) (s : PresenceSlice)
    → AreTypingLists s.typing_users
    → AreTypingLists (remove_typing_user id user s).typing_users
unfolding remove_typing_user
remove_typing_user-AreTypingLists id user s v = elim (Option-cases (lookup id s.typing_users)) [
  | inl e ↦ rw (e, remove_typing_user) v
  | inr (us, e) ↦
      rw (e, remove_typing_user)
        (store_typing-AreTypingLists id (without_user user us) s.typing_users
          (without_user-AreUsersOnce user us (v id us e).once) v)
]

Step-AreTypingLists :
    {s t : PresenceSlice} → Step s t → AreTypingLists s.typing_users → AreTypingLists t.typing_users
unfolding set_presence add_typing_user clear_typing_for_channel timer_fires
Step-AreTypingLists {s} (appears pubkey status name) v = v
Step-AreTypingLists {s} (all_appear updates) v =
    subst AreTypingLists (sym (set_bulk_presence-typing_users updates s)) v
Step-AreTypingLists {s} (types id user name) v =
    let others = without_user user (typing_in id s) in
    let entry : TypingUser = record {
      user_id = user;
      display_name = name;
      timeout = s.next_timer;
    } in
    insert-AreTypingLists id (others ++ entry ∷ []) s.typing_users
      (record {
        nonempty = append_one_nonempty others entry;
        once =
            append_one-AreUsersOnce others entry (without_user_gone user (typing_in id s))
              (without_user-AreUsersOnce user (typing_in id s) (typing_in-AreUsersOnce id s v));
      })
      v
Step-AreTypingLists {s} (stops id user) v = remove_typing_user-AreTypingLists id user s v
Step-AreTypingLists {s} (clears id) v = erase-AreTypingLists id s.typing_users v
Step-AreTypingLists {s} (fires t) v =
    remove_typing_user-AreTypingLists t.channel_id t.user_id
      (record s { timers = clear_timeout t.number s.timers }) v

empty-AreTypingLists : AreTypingLists []
unfolding lookup
empty-AreTypingLists id us e = absurd (cc)

-- In every state that the empty presence slice reaches, with timers that run out at any time, no list of
-- typing users that is stored is empty, and nobody stands twice in one.
pub Reach-AreTypingLists : {s : PresenceSlice} → Reach s → AreTypingLists s.typing_users
Reach-AreTypingLists start = empty-AreTypingLists
Reach-AreTypingLists (next r st) = Step-AreTypingLists st (Reach-AreTypingLists r)
