-- ===== src/Tests/Voice.antt =====
-- Runs of the voice slice.
use united.Prelude.{◌≡◌, refl, true, false, some, none}
use united.Voice.Slice.{
  VoiceSlice, Json, PersistedVoiceSettings, as_partial, no_settings, initial, join_voice_channel,
  toggle_deafen, ptt,
}
use united.Voice.Settings.{
  VoiceStore, create_voice_slice, set_setting, IsSetTo, mode, create_voice_slice-set_setting,
}
use united.Voice.Mute.{IsConsistent, start, next, joins, deafens, Reach-IsConsistent}

-- Texts that are the objects themselves.
abbrev plain_json : Json
plain_json = record {
  Text = PersistedVoiceSettings;
  is_empty = λ t. false;
  stringify = λ p. p;
  parse = λ t. some (as_partial t);
  is_empty-stringify = λ p. refl;
  parse-stringify = λ p. refl;
}

abbrev joined : VoiceSlice
joined = join_voice_channel "lounge" (initial no_settings)

Reach-IsConsistent_example : IsConsistent (toggle_deafen joined).0
Reach-IsConsistent_example =
    Reach-IsConsistent {settings = no_settings} (next (next start (joins "lounge")) deafens)

abbrev fresh : VoiceStore plain_json
fresh = create_voice_slice plain_json none

create_voice_slice-set_setting_example :
    let changed = (set_setting plain_json true (mode ptt) fresh).slice in
    let restarted =
      (create_voice_slice plain_json (set_setting plain_json true (mode ptt) fresh).stored).slice in
    IsSetTo plain_json (mode ptt) restarted
    × ((restarted.voice_mode ≡ changed.voice_mode)
        × ((restarted.vad_sensitivity ≡ changed.vad_sensitivity)
            × ((restarted.input_device_id ≡ changed.input_device_id)
                × ((restarted.output_device_id ≡ changed.output_device_id)
                    × ((restarted.output_volume ≡ changed.output_volume)
                        × (restarted.user_volumes ≡ changed.user_volumes))))))
create_voice_slice-set_setting_example = create_voice_slice-set_setting plain_json (mode ptt) fresh
