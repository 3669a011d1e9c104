-- ===== src/Mesh/Offers.antt =====
-- One of two peers makes the offer (voice/VoiceManager.ts).
use united.Prelude.{
  ℕ, suc, ◌+◌, ◌≡◌, ◌≢◌, refl, String, str_eq, str_eq-false, str_lt, str_lt_swap, eq_iff, Bool,
  true, false, List, [], ◌∷◌, some, inl, inr, if◌then◌else◌, Bool-cases, arith,
}
use united.Mesh.Manager.{
  VoiceManager, Output, sdp_offer, should_offer, send_offer, create_peer_connection, connect_all,
  join_channel, has_peer, handle_new_participant,
}

-- The offer of a connection with another user that is new: sent by the side whose id is the lesser.
abbrev pub offers_made : List Output → ℕ
offers_made [] = 0
offers_made (sdp_offer id sdp ∷ out) = suc (offers_made out)
offers_made (_ ∷ out) = offers_made out

create_peer_connection-offers :
    (id : String) (is_offerer : Bool) (sdp : String) (m : VoiceManager)
    → sdp ≢ ""
    → offers_made (create_peer_connection id is_offerer (some sdp) m).1.0
      ≡ (if is_offerer then 1 else 0)
unfolding create_peer_connection send_offer
create_peer_connection-offers id is_offerer sdp m ne = ground (arith, eq_iff sdp "")

-- Where a user joins a channel that another user is in, and each learns of the other once, exactly one
-- of them sends an offer, whichever of the two joined. Both microphones work and both browsers make
-- offers that are not empty.
pub offers-join_channel :
    (channel a b : String) (sdp_a sdp_b : String) (m n : VoiceManager)
    → a ≢ b
    → sdp_a ≢ ""
    → sdp_b ≢ ""
    → n.local_user_id ≡ b
    → has_peer a n ≡ false
    → offers_made (join_channel channel a (b ∷ []) (λ id. some sdp_a) true m).1.0
        + offers_made (handle_new_participant a (λ id. some sdp_b) n).1.0
      ≡ 1
unfolding join_channel connect_all handle_new_participant should_offer create_peer_connection
    send_offer
offers-join_channel channel a b sdp_a sdp_b m n ne some_a some_b own new =
    let other : str_eq b a ≡ false = ground (arith, eq_iff b a) in
    let full_a : str_eq sdp_a "" ≡ false = str_eq-false sdp_a "" some_a in
    let full_b : str_eq sdp_b "" ≡ false = str_eq-false sdp_b "" some_b in
    elim (Bool-cases (str_lt a b)) [
      | inl e ↦
          rw (own, new, other, full_a, full_b, str_eq-false a b ne, str_lt_swap a b ne, e) refl
      | inr e ↦
          rw (own, new, other, full_a, full_b, str_eq-false a b ne, str_lt_swap a b ne, e) refl
    ]
