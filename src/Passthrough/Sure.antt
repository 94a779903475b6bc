-- ===== src/Passthrough/Sure.antt =====
-- When `passthrough_for` gives an answer.
use mathlib.Core.Option.{some-ne-none, some-injective}
use enigma2_mqtt_bridge.Common.{
  ◌≡◌, refl, sym, ap, ◌⊎◌, inl, inr, Bool, true, false, Option, none, some, List, [], ◌∷◌, ◌++◌,
  String, string_eq, All, Bool-cases, Option-cases,
}
use enigma2_mqtt_bridge.Audio.{Codec}
use enigma2_mqtt_bridge.Passthrough.{
  Setting, decides, settings_of, transcode_of, is_always_decoded, transcodes, first_setting,
  passthrough_for,
}

module _ (setting : String → Option Setting) where
  -- The first of some settings that the image has decides.
  abbrev pub IsDecided : List String → Bool → Type 0
  IsDecided names answer =
      (before : List String) × (name : String) × (after : List String) × (s : Setting) × (names
        ≡ before ++ (name ∷ after))
      × All (λ other. setting other ≡ none) before
      × (setting name ≡ some s)
      × (decides s ≡ some answer)

  first_setting-IsDecided :
      (names : List String) (answer : Bool)
      → first_setting setting names ≡ some answer
      → IsDecided names answer
  unfolding first_setting
  first_setting-IsDecided [] answer h = absurd (some-ne-none _ (sym h))
  first_setting-IsDecided (name ∷ names) answer h = elim (Option-cases (setting name)) [
    | inr (s, there) ↦ ([], name, names, s, refl, tt, there, rw (there, first_setting) at h)
    | inl missing ↦
        let (before, found, after, s, e, none_before, there, decided) =
          first_setting-IsDecided names answer (rw (missing, first_setting) at h) in
        (
          name ∷ before,
          found,
          after,
          s,
          ap (λ l. name ∷ l) e,
          (missing, none_before),
          there,
          decided,
        )
  ]

  -- An answer is sure: a track is said to be decoded or passed through only if its codec is always
  -- decoded by the receiver, or no transcode of it is switched on and the first of its settings that
  -- the image has is one that decides it that way.
  pub passthrough_for-sure :
      (codec : Codec) (answer : Bool)
      → passthrough_for setting (some codec) ≡ some answer
      → ((is_always_decoded codec ≡ true) × (answer ≡ false))
        ⊎ ((transcodes setting (transcode_of codec) ≡ false) × IsDecided (settings_of codec) answer)
  unfolding passthrough_for
  passthrough_for-sure codec answer h = elim (Bool-cases (is_always_decoded codec)) [
    | inl decoded ↦ inl (decoded, sym (some-injective _ _ (rw decoded at h)))
    | inr other ↦ elim (Bool-cases (transcodes setting (transcode_of codec))) [
      | inl transcoded ↦ absurd (some-ne-none _ (sym (rw (other, transcoded) at h)))
      | inr plain ↦
          inr (plain, first_setting-IsDecided (settings_of codec) answer (rw (other, plain) at h))
    ]
  ]
