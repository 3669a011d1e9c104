-- ===== src/Voice/Settings.antt =====
-- The voice settings across a restart (stores/voice.ts: loadVoiceSettings, saveVoiceSettings and the
-- actions that call persistSettings).
use united.Prelude.{ℕ, ◌≡◌, ◌∙◌, refl, ap, String, Bool, true, Option, none, some, if◌then◌else◌}
use united.Prelude.Dict.{lookup, insert, lookup-insert_self}
use united.Voice.Slice.{
  VoiceMode, VoiceSlice, Json, PartialVoiceSettings, PersistedVoiceSettings, no_settings, initial,
  settings_of,
}

module _ (json : Json) where
  -- The slice, and the text under `united_voice_settings`.
  pub record VoiceStore : Type 0 where
    pub slice : VoiceSlice
    pub stored : Option json.Text

  unfoldable pub load_voice_settings : Option json.Text → PartialVoiceSettings
  load_voice_settings stored = elim stored [
    | none ↦ no_settings
    | some raw ↦
        if json.is_empty raw
        then no_settings
        else elim (json.parse raw) [ none ↦ no_settings | some settings ↦ settings ]
  ]

  unfoldable pub save_voice_settings :
      Bool → PersistedVoiceSettings → Option json.Text → Option json.Text
  save_voice_settings room settings stored = if room then some (json.stringify settings) else stored

  unfoldable pub create_voice_slice : Option json.Text → VoiceStore
  unfolding load_voice_settings
  create_voice_slice stored = record {
    slice = initial (load_voice_settings stored);
    stored = stored;
  }

  -- `set({ … })` and then `persistSettings(get)`.
  abbrev pub set_and_persist : Bool → (VoiceSlice → VoiceSlice) → VoiceStore → VoiceStore
  set_and_persist room change s =
      let slice = change s.slice in
      record { slice = slice; stored = save_voice_settings room (settings_of slice) s.stored }

  -- The settings that the user can change.
  pub data Setting : Type 0 where
    mode : VoiceMode → Setting
    sensitivity : ℕ → Setting
    input_device : String → Setting
    output_device : String → Setting
    volume : ℕ → Setting
    user_volume : String → ℕ → Setting

  unfoldable pub change_setting : Setting → VoiceSlice → VoiceSlice
  change_setting (mode m) s = record s { voice_mode = m }
  change_setting (sensitivity n) s = record s { vad_sensitivity = n }
  change_setting (input_device id) s = record s { input_device_id = some id }
  change_setting (output_device id) s = record s { output_device_id = some id }
  change_setting (volume n) s = record s { output_volume = n }
  change_setting (user_volume id n) s = record s { user_volumes = insert id n s.user_volumes }

  unfoldable pub set_setting : Bool → Setting → VoiceStore → VoiceStore
  set_setting room setting = set_and_persist room (change_setting setting)

  -- What a change asks of the slice.
  pub IsSetTo : Setting → VoiceSlice → Type 0
  IsSetTo (mode m) s = s.voice_mode ≡ m
  IsSetTo (sensitivity n) s = s.vad_sensitivity ≡ n
  IsSetTo (input_device id) s = s.input_device_id ≡ some id
  IsSetTo (output_device id) s = s.output_device_id ≡ some id
  IsSetTo (volume n) s = s.output_volume ≡ n
  IsSetTo (user_volume id n) s = lookup id s.user_volumes ≡ some n

  change_setting-IsSetTo :
      (setting : Setting) (s : VoiceSlice) → IsSetTo setting (change_setting setting s)
  unfolding change_setting IsSetTo
  change_setting-IsSetTo (mode m) s = refl
  change_setting-IsSetTo (sensitivity n) s = refl
  change_setting-IsSetTo (input_device id) s = refl
  change_setting-IsSetTo (output_device id) s = refl
  change_setting-IsSetTo (volume n) s = refl
  change_setting-IsSetTo (user_volume id n) s = lookup-insert_self id n s.user_volumes

  IsSetTo-settings :
      (setting : Setting) (s t : VoiceSlice)
      → settings_of t ≡ settings_of s
      → IsSetTo setting s
      → IsSetTo setting t
  unfolding IsSetTo
  IsSetTo-settings (mode m) s t e h = ap (λ (p : PersistedVoiceSettings). p.voice_mode) e ∙ h
  IsSetTo-settings (sensitivity n) s t e h =
      ap (λ (p : PersistedVoiceSettings). p.vad_sensitivity) e ∙ h
  IsSetTo-settings (input_device id) s t e h =
      ap (λ (p : PersistedVoiceSettings). p.input_device_id) e ∙ h
  IsSetTo-settings (output_device id) s t e h =
      ap (λ (p : PersistedVoiceSettings). p.output_device_id) e ∙ h
  IsSetTo-settings (volume n) s t e h = ap (λ (p : PersistedVoiceSettings). p.output_volume) e ∙ h
  IsSetTo-settings (user_volume id n) s t e h =
      ap (λ (p : PersistedVoiceSettings). lookup id p.user_volumes) e ∙ h

  -- A setting that is changed and finds room in the local storage has its new value after a restart,
  -- and there each of the six settings is that of the slice that was changed.
  pub create_voice_slice-set_setting :
      (setting : Setting) (s : VoiceStore)
      → let changed = (set_setting true setting s).slice in
        let restarted = (create_voice_slice (set_setting true setting s).stored).slice in
        IsSetTo setting restarted
        × ((restarted.voice_mode ≡ changed.voice_mode)
            × ((restarted.vad_sensitivity ≡ changed.vad_sensitivity)
                × ((restarted.input_device_id ≡ changed.input_device_id)
                    × ((restarted.output_device_id ≡ changed.output_device_id)
                        × ((restarted.output_volume ≡ changed.output_volume)
                            × (restarted.user_volumes ≡ changed.user_volumes))))))
  unfolding create_voice_slice load_voice_settings set_setting save_voice_settings
  create_voice_slice-set_setting setting s =
      let changed = change_setting setting s.slice in
      let settings = settings_of changed in
      let restarted = (create_voice_slice (set_setting true setting s).stored).slice in
      let same : settings_of restarted ≡ settings =
        rw (json.is_empty-stringify settings, json.parse-stringify settings) refl in
      (
        IsSetTo-settings setting changed restarted same (change_setting-IsSetTo setting s.slice),
        (
          ap (λ (p : PersistedVoiceSettings). p.voice_mode) same,
          (
            ap (λ (p : PersistedVoiceSettings). p.vad_sensitivity) same,
            (
              ap (λ (p : PersistedVoiceSettings). p.input_device_id) same,
              (
                ap (λ (p : PersistedVoiceSettings). p.output_device_id) same,
                (
                  ap (λ (p : PersistedVoiceSettings). p.output_volume) same,
                  ap (λ (p : PersistedVoiceSettings). p.user_volumes) same,
                ),
              ),
            ),
          ),
        ),
      )
