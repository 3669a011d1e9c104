-- ===== src/Voice/Mute.antt =====
-- Mute and deafen, and the participants of a voice channel (stores/voice.ts).
use united.Prelude.{
  ◌≡◌, ◌⊎◌, ◌∙◌, [], refl, String, str_eq, eq_iff, Bool, true, false, inl, inr, some, arith,
  Bool-cases, Option-cases,
}
use united.Prelude.Dict.{
  Dict, lookup, insert, erase, lookup-insert, lookup-erase, lookup-erase_self,
}
use united.Voice.Slice.{
  VoiceSlice, VoiceParticipant, VoiceParticipantState, VoiceQualityMetrics, ConnectionQuality,
  PartialVoiceSettings, initial, with_participant, participant_state, join_voice_channel,
  leave_voice_channel, toggle_mute, toggle_deafen, set_ptt_active, set_connection_quality,
  add_voice_participant, remove_voice_participant, update_participant_state,
  update_participant_speaking,
}

-- Everybody stands under their own id.
abbrev pub AreKeyed : Dict VoiceParticipantState → Type 0
AreKeyed d = (id : String) (p : VoiceParticipantState) → lookup id d ≡ some p → p.user_id ≡ id

-- Who is deafened is muted, and the participants stand under their own ids.
pub record IsConsistent (s : VoiceSlice) : Type 0 where
  pub quiet : (s.local_deafened ≡ false) ⊎ (s.local_muted ≡ true)
  pub keyed : AreKeyed s.voice_participants

pub data Step (s : VoiceSlice) : VoiceSlice → Type 0 where
  joins : (id : String) → Step s (join_voice_channel id s)
  leaves : Step s (leave_voice_channel s)
  mutes : Step s (toggle_mute s).0
  deafens : Step s (toggle_deafen s).0
  talks : (active : Bool) → Step s (set_ptt_active active s)
  measures :
      (quality : ConnectionQuality) (metrics : VoiceQualityMetrics)
      → Step s (set_connection_quality quality metrics s)
  enters : (p : VoiceParticipant) → Step s (add_voice_participant p s)
  goes : (id : String) → Step s (remove_voice_participant id s)
  changes :
      (id : String) (muted deafened : Bool) → Step s (update_participant_state id muted deafened s)
  speaks : (id : String) (speaking : Bool) → Step s (update_participant_speaking id speaking s)

pub data Reach (settings : PartialVoiceSettings) : VoiceSlice → Type 0 where
  start : Reach settings (initial settings)
  next : {s t : VoiceSlice} → Reach settings s → Step s t → Reach settings t

insert-AreKeyed :
    (id : String) (p : VoiceParticipantState) (d : Dict VoiceParticipantState)
    → p.user_id ≡ id
    → AreKeyed d
    → AreKeyed (insert id p d)
insert-AreKeyed id p d own keyed j q e = elim (Bool-cases (str_eq id j)) [
  | inl same ↦
      let is : p ≡ q = ground (arith, lookup-insert id j p d) in
      ground (arith, is, own, eq_iff id j)
  | inr other ↦ keyed j q (ground (arith, lookup-insert id j p d))
]

erase-AreKeyed : (id : String) (d : Dict VoiceParticipantState) → AreKeyed d → AreKeyed (erase id d)
erase-AreKeyed id d keyed j q e = elim (Bool-cases (str_eq id j)) [
  | inl same ↦ absurd (ground (arith, lookup-erase id j d))
  | inr other ↦ keyed j q (ground (arith, lookup-erase id j d))
]

nobody-AreKeyed : AreKeyed []
unfolding lookup
nobody-AreKeyed j q e = absurd (cc)

with_participant-IsConsistent :
    (id : String) (f : VoiceParticipantState → VoiceParticipantState) (s : VoiceSlice)
    → ((p : VoiceParticipantState) → (f p).user_id ≡ p.user_id)
    → IsConsistent s
    → IsConsistent (with_participant id f s)
with_participant-IsConsistent id f s same c = elim (Option-cases (lookup id s.voice_participants)) [
  | inl e ↦ rw (e, with_participant) c
  | inr (p, e) ↦
      rw (e, with_participant)
        (record {
          quiet = c.quiet;
          keyed = insert-AreKeyed id (f p) s.voice_participants (same p ∙ c.keyed id p e) c.keyed;
        })
]

Step-IsConsistent : {s t : VoiceSlice} → Step s t → IsConsistent s → IsConsistent t
unfolding join_voice_channel leave_voice_channel toggle_mute toggle_deafen set_ptt_active
    set_connection_quality add_voice_participant remove_voice_participant update_participant_state
    update_participant_speaking
Step-IsConsistent {s} (joins id) c = record { quiet = c.quiet; keyed = nobody-AreKeyed }
Step-IsConsistent {s} leaves c = record { quiet = inl refl; keyed = nobody-AreKeyed }
Step-IsConsistent {s} mutes c = record { quiet = ground (arith, c.quiet); keyed = c.keyed }
Step-IsConsistent {s} deafens c = record { quiet = ground (arith, c.quiet); keyed = c.keyed }
Step-IsConsistent {s} (talks active) c = record { quiet = c.quiet; keyed = c.keyed }
Step-IsConsistent {s} (measures quality metrics) c = record { quiet = c.quiet; keyed = c.keyed }
Step-IsConsistent {s} (enters p) c = record {
  quiet = c.quiet;
  keyed = insert-AreKeyed p.user_id (participant_state p) s.voice_participants refl c.keyed;
}
Step-IsConsistent {s} (goes id) c = record {
  quiet = c.quiet;
  keyed = erase-AreKeyed id s.voice_participants c.keyed;
}
Step-IsConsistent {s} (changes id muted deafened) c =
    with_participant-IsConsistent id _ s (λ p. refl) c
Step-IsConsistent {s} (speaks id speaking) c = with_participant-IsConsistent id _ s (λ p. refl) c

-- In every state that the voice slice reaches from any settings, a user who is deafened is muted, and
-- every participant stands under their own id.
pub Reach-IsConsistent :
    {settings : PartialVoiceSettings} {s : VoiceSlice} → Reach settings s → IsConsistent s
Reach-IsConsistent start = record { quiet = inl refl; keyed = nobody-AreKeyed }
Reach-IsConsistent (next r st) = Step-IsConsistent st (Reach-IsConsistent r)

-- News of a participant who has left change nothing: neither of the two updates brings them back.
pub update_participant-remove_voice_participant :
    (id : String) (muted deafened speaking : Bool) (s : VoiceSlice)
    → (update_participant_state id muted deafened (remove_voice_participant id s)
        ≡ remove_voice_participant id s)
      × (update_participant_speaking id speaking (remove_voice_participant id s)
          ≡ remove_voice_participant id s)
unfolding update_participant_state update_participant_speaking remove_voice_participant
update_participant-remove_voice_participant id muted deafened speaking s =
    let gone = lookup-erase_self id s.voice_participants in
    (rw (gone, with_participant) refl, rw (gone, with_participant) refl)
