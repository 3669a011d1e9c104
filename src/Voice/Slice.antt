-- ===== src/Voice/Slice.antt =====
-- The slice of client/src/renderer/src/stores/voice.ts: who is in the voice channel, what the user has
-- muted, and the settings that outlive a restart. The local storage of the browser holds texts; JSON is
-- a parameter. A write may fail (`room`), and the source goes on. What an action sends to the main
-- process is part of its result; the participants are a `Map`, in order of insertion.
use united.Prelude.{
  ℕ, ◌≡◌, String, str_eq, Bool, true, false, not, [], Option, none, some, if◌then◌else◌,
}
use united.Prelude.Dict.{Dict, lookup, insert, erase}

pub data VoiceMode : Type 0 where
  vad ptt : VoiceMode

pub data ConnectionQuality : Type 0 where
  good degraded poor : ConnectionQuality

-- The measures are numbers that the browser reports.
pub record VoiceQualityMetrics : Type 0 where
  pub rtt_ms : ℕ
  pub packet_loss : ℕ
  pub jitter : ℕ
  pub quality : ConnectionQuality

pub record VoiceParticipantState : Type 0 where
  pub user_id : String
  pub display_name : String
  pub pubkey : String
  pub muted : Bool
  pub deafened : Bool
  pub speaking : Bool
  pub quality : ConnectionQuality

-- A participant as the server announces one.
pub record VoiceParticipant : Type 0 where
  pub user_id : String
  pub display_name : String
  pub pubkey : String
  pub muted : Bool
  pub deafened : Bool

pub record PersistedVoiceSettings : Type 0 where
  pub voice_mode : VoiceMode
  pub vad_sensitivity : ℕ
  pub input_device_id : Option String
  pub output_device_id : Option String
  pub output_volume : ℕ
  pub user_volumes : Dict ℕ

-- `Partial<PersistedVoiceSettings>`: `none` is a field that is missing or null.
pub record PartialVoiceSettings : Type 0 where
  pub voice_mode : Option VoiceMode
  pub vad_sensitivity : Option ℕ
  pub input_device_id : Option String
  pub output_device_id : Option String
  pub output_volume : Option ℕ
  pub user_volumes : Option (Dict ℕ)

abbrev pub as_partial : PersistedVoiceSettings → PartialVoiceSettings
as_partial p = record {
  voice_mode = some p.voice_mode;
  vad_sensitivity = some p.vad_sensitivity;
  input_device_id = p.input_device_id;
  output_device_id = p.output_device_id;
  output_volume = some p.output_volume;
  user_volumes = some p.user_volumes;
}

-- The texts of the local storage and JSON: what was written is not empty and is read back; `none` is a
-- text that does not parse.
pub record Json : Type 1 where
  pub Text : Type 0
  pub is_empty : Text → Bool
  pub stringify : PersistedVoiceSettings → Text
  pub parse : Text → Option PartialVoiceSettings
  pub is_empty-stringify : (p : PersistedVoiceSettings) → is_empty (stringify p) ≡ false
  pub parse-stringify : (p : PersistedVoiceSettings) → parse (stringify p) ≡ some (as_partial p)

pub record VoiceSlice : Type 0 where
  pub voice_channel_id : Option String
  pub voice_participants : Dict VoiceParticipantState
  pub local_muted : Bool
  pub local_deafened : Bool
  pub voice_mode : VoiceMode
  pub vad_sensitivity : ℕ
  pub ptt_active : Bool
  pub connection_quality : ConnectionQuality
  pub quality_metrics : Option VoiceQualityMetrics
  pub input_device_id : Option String
  pub output_device_id : Option String
  pub output_volume : ℕ
  pub user_volumes : Dict ℕ

-- `sendStateUpdate(channelId, muted, deafened)`
pub record StateUpdate : Type 0 where
  pub channel_id : String
  pub muted : Bool
  pub deafened : Bool

abbrev pub no_settings : PartialVoiceSettings
no_settings = record {
  voice_mode = none;
  vad_sensitivity = none;
  input_device_id = none;
  output_device_id = none;
  output_volume = none;
  user_volumes = none;
}

-- `value ?? fallback`
abbrev pub or_default {ℓ} : {A : Type ℓ} → Option A → A → A
or_default none d = d
or_default (some a) d = a

abbrev pub initial : PartialVoiceSettings → VoiceSlice
initial persisted = record {
  voice_channel_id = none;
  voice_participants = [];
  local_muted = false;
  local_deafened = false;
  voice_mode = or_default persisted.voice_mode vad;
  vad_sensitivity = or_default persisted.vad_sensitivity 50;
  ptt_active = false;
  connection_quality = good;
  quality_metrics = none;
  input_device_id = persisted.input_device_id;
  output_device_id = persisted.output_device_id;
  output_volume = or_default persisted.output_volume 100;
  user_volumes = or_default persisted.user_volumes [];
}

-- The object that `persistSettings` saves.
abbrev pub settings_of : VoiceSlice → PersistedVoiceSettings
settings_of s = record {
  voice_mode = s.voice_mode;
  vad_sensitivity = s.vad_sensitivity;
  input_device_id = s.input_device_id;
  output_device_id = s.output_device_id;
  output_volume = s.output_volume;
  user_volumes = s.user_volumes;
}

unfoldable pub join_voice_channel : String → VoiceSlice → VoiceSlice
join_voice_channel channel_id s = record s {
  voice_channel_id = some channel_id;
  voice_participants = [];
}

unfoldable pub leave_voice_channel : VoiceSlice → VoiceSlice
leave_voice_channel s = record s {
  voice_channel_id = none;
  voice_participants = [];
  local_muted = false;
  local_deafened = false;
  ptt_active = false;
  connection_quality = good;
  quality_metrics = none;
}

-- The text of a channel's id that is empty counts as none.
abbrev pub state_update : VoiceSlice → Option StateUpdate
state_update s = elim s.voice_channel_id [
  | none ↦ none
  | some id ↦
      if str_eq id ""
      then none
      else some (record { channel_id = id; muted = s.local_muted; deafened = s.local_deafened })
]

unfoldable pub toggle_mute : VoiceSlice → VoiceSlice × Option StateUpdate
toggle_mute s =
    let new_muted = not s.local_muted in
    let new_deafened = if new_muted then s.local_deafened else false in
    let s' = record s { local_muted = new_muted; local_deafened = new_deafened } in
    (s', state_update s')

unfoldable pub toggle_deafen : VoiceSlice → VoiceSlice × Option StateUpdate
toggle_deafen s =
    let new_deafened = not s.local_deafened in
    let new_muted = if new_deafened then true else s.local_muted in
    let s' = record s { local_deafened = new_deafened; local_muted = new_muted } in
    (s', state_update s')

unfoldable pub set_ptt_active : Bool → VoiceSlice → VoiceSlice
set_ptt_active active s = record s { ptt_active = active }

unfoldable pub set_connection_quality :
    ConnectionQuality → VoiceQualityMetrics → VoiceSlice → VoiceSlice
set_connection_quality quality metrics s = record s {
  connection_quality = quality;
  quality_metrics = some metrics;
}

-- A participant that is announced again starts afresh: not speaking, with a good connection.
abbrev pub participant_state : VoiceParticipant → VoiceParticipantState
participant_state p = record {
  user_id = p.user_id;
  display_name = p.display_name;
  pubkey = p.pubkey;
  muted = p.muted;
  deafened = p.deafened;
  speaking = false;
  quality = good;
}

unfoldable pub add_voice_participant : VoiceParticipant → VoiceSlice → VoiceSlice
add_voice_participant p s = record s {
  voice_participants = insert p.user_id (participant_state p) s.voice_participants;
}

unfoldable pub remove_voice_participant : String → VoiceSlice → VoiceSlice
remove_voice_participant user_id s = record s {
  voice_participants = erase user_id s.voice_participants;
}

abbrev pub with_participant :
    String → (VoiceParticipantState → VoiceParticipantState) → VoiceSlice → VoiceSlice
with_participant user_id f s = elim (lookup user_id s.voice_participants) [
  | none ↦ s
  | some existing ↦ record s {
    voice_participants = insert user_id (f existing) s.voice_participants;
  }
]

unfoldable pub update_participant_state : String → Bool → Bool → VoiceSlice → VoiceSlice
update_participant_state user_id muted deafened =
    with_participant user_id (λ p. record p { muted = muted; deafened = deafened })

unfoldable pub update_participant_speaking : String → Bool → VoiceSlice → VoiceSlice
update_participant_speaking user_id speaking =
    with_participant user_id (λ p. record p { speaking = speaking })
