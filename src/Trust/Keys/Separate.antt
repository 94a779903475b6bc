-- ===== src/Trust/Keys/Separate.antt =====
-- `configured`: a build judges by the release keys, or by keys that are none of them.
use mathlib.Core.Path.{subst}
use enigma2_mqtt_bridge.Common.{
  ◌≡◌, ◌≢◌, refl, sym, ◌⊎◌, inl, inr, true, false, Option, none, some, List, [], ◌∷◌, String, ◌==◌,
  string_eq, option_eq, any, Bool-cases, eq_of_test, ne_of_test,
}
use enigma2_mqtt_bridge.Common.Result.{Result, ok, err, >>=-eq-ok, ok-injective}
use enigma2_mqtt_bridge.Json.{Value}
use enigma2_mqtt_bridge.Trust.Platform.{Platform}
use enigma2_mqtt_bridge.Trust.Keys.{
  Key, KeySetError, keys_from_data, is_release_key, refuse_release_keys, embedded, release_origin,
  Overrides, Configured, acceptance_keys, acceptance_build, carried, configured,
}

-- The keys of an acceptance build: the release keys themselves, or a set with none of them.
abbrev pub IsSeparate : List Key → Type 0
IsSeparate keys = (keys ≡ embedded) ⊎ (any is_release_key keys ≡ false)

refuse_release_keys-IsSeparate :
    (keys kept : List Key) → refuse_release_keys keys ≡ ok kept → IsSeparate kept
unfolding refuse_release_keys
refuse_release_keys-IsSeparate keys kept h = elim (Bool-cases (any is_release_key keys)) [
  | inl shared ↦ absurd (cc (rw shared at h))
  | inr apart ↦ subst IsSeparate (ok-injective (rw apart at h)) (inr apart)
]

acceptance_keys-IsSeparate :
    (platform : Platform) (carried : Option (List Value)) (kept : List Key)
    → acceptance_keys platform carried ≡ ok kept
    → IsSeparate kept
unfolding acceptance_keys
acceptance_keys-IsSeparate platform none kept h = inl (sym (ok-injective h))
acceptance_keys-IsSeparate platform (some []) kept h = inl (sym (ok-injective h))
acceptance_keys-IsSeparate platform (some (item ∷ items)) kept h =
    go (keys_from_data platform (item ∷ items)) h
  where
    go :
        (r : Result _ (List Key))
        → elim r [
          | err reason ↦ err (KeySetError.refused reason)
          | ok keys ↦ refuse_release_keys keys
        ]
          ≡ ok kept
        → IsSeparate kept
    go (ok keys) k = refuse_release_keys-IsSeparate keys kept k
    go (err e) k = cc

acceptance_build-IsSeparate :
    (platform : Platform) (o : Overrides) (c : Configured)
    → acceptance_build platform o ≡ ok c
    → (c.acceptance ≡ true) × IsSeparate c.keys
unfolding acceptance_build
acceptance_build-IsSeparate platform o c h =
    let (keys, kept, h1) = >>=-eq-ok (acceptance_keys platform o.index_keys) _ h in
    subst (λ (d : Configured). (d.acceptance ≡ true) × IsSeparate d.keys) (ok-injective h1)
      (refl, acceptance_keys-IsSeparate platform o.index_keys keys kept)

-- A build that is no acceptance build judges by the release keys and the release origin, whatever
-- overrides it carries. An acceptance build reads the acceptance part of the state, with the
-- release keys or with a set that contains none of them, by id or by public key.
pub configured-separates :
    (platform : Platform) (flavour : Option String) (overrides : Option Overrides) (c : Configured)
    → configured platform flavour overrides ≡ ok c
    → ((flavour ≢ some "acceptance")
        × (c ≡ record { origin = release_origin; keys = embedded; acceptance = false }))
      ⊎ ((flavour ≡ some "acceptance") × ((c.acceptance ≡ true) × IsSeparate c.keys))
unfolding configured
configured-separates platform flavour overrides c h =
    elim (Bool-cases (flavour == some "acceptance")) [
      | inr other ↦ inl (ne_of_test _ _ other, sym (ok-injective (rw other at h)))
      | inl same ↦ inr (
        eq_of_test _ _ same,
        acceptance_build-IsSeparate platform (carried overrides) c (rw same at h),
      )
    ]
