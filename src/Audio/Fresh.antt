-- ===== src/Audio/Fresh.antt =====
-- How old an answer of `ActiveTrack` can be.
use mathlib.Core.Path.{subst}
use enigma2_mqtt_bridge.Common.{
  ℕ, suc, ◌<◌, ◌≡◌, ◌≢◌, ◌∙◌, refl, sym, ◌⊎◌, inl, inr, false, not, Option, none, some, string_eq,
  option_eq, nat_eq, eqb, leb, arith, Bool-cases, if◌then◌else◌,
}
use enigma2_mqtt_bridge.Audio.{
  Words, TrackInfo, Player, active_index, ActiveTrack, new_track, forget, count_look, looked,
  reads_track, read_codec, codec_at, ask_codec, same_key,
}

module _ (words : Words) (n : ℕ) where
  -- A run of looks, of service events and of asks, with the looks since the description was last read.
  pub data Reached : ActiveTrack → ℕ → Type 0 where
    at_first : Reached (new_track (some n)) 0
    looks_by : {t : ActiveTrack} {g : ℕ} → Reached t g → Reached (looked t) (suc g)
    forgets : {t : ActiveTrack} {g : ℕ} → Reached t g → Reached (forget t) g
    asks :
        {t : ActiveTrack} {g : ℕ} (player : Player)
        → Reached t g
        → Reached (ask_codec words player t) (if reads_track player t then 0 else g)

  -- The answer's age is counted, and below the bound.
  IsFresh : ActiveTrack → ℕ → Type 0
  IsFresh t g = (t.reread_looks ≡ some n) × ((t.key ≡ none) ⊎ ((t.looks ≡ g) × (g < n)))

  reread_of : (t : ActiveTrack) (g : ℕ) → IsFresh t g → t.reread_looks ≡ some n
  unfolding IsFresh
  reread_of t g fresh = fresh.0

  forget-IsFresh : (t : ActiveTrack) (g : ℕ) → t.reread_looks ≡ some n → IsFresh (forget t) g
  unfolding IsFresh forget
  forget-IsFresh t g e = (e, inl refl)

  count_look-IsFresh :
      (t : ActiveTrack) (g : ℕ) → 0 < n → IsFresh t g → IsFresh (count_look (some n) t) (suc g)
  unfolding IsFresh count_look forget
  count_look-IsFresh t g some_looks (reread, age) =
      let bounded : eqb n 0 ≡ false = ground arith in
      elim (Bool-cases (leb n (suc t.looks))) [
        | inl full ↦ rw (bounded, full) (reread, inl refl)
        | inr more ↦
            rw (bounded, more)
              (
                reread,
                elim age [
                  | inl no_key ↦ inl no_key
                  | inr (same, young) ↦ inr (ground arith, ground arith)
                ],
              )
      ]

  settled : ActiveTrack → ActiveTrack
  settled t = if t.failed then forget t else t

  settled-IsFresh : (t : ActiveTrack) (g : ℕ) → IsFresh t g → IsFresh (settled t) g
  unfolding settled IsFresh forget
  settled-IsFresh t g (reread, age) = elim (Bool-cases t.failed) [
    | inl failed ↦ rw failed (reread, inl refl)
    | inr fine ↦ rw fine (reread, age)
  ]

  looked-IsFresh : (t : ActiveTrack) (g : ℕ) → 0 < n → IsFresh t g → IsFresh (looked t) (suc g)
  unfolding looked settled
  looked-IsFresh t g some_looks fresh =
      subst (λ bound. IsFresh (count_look bound (settled t)) (suc g)) (sym (reread_of t g fresh))
        (count_look-IsFresh (settled t) g some_looks (settled-IsFresh t g fresh))

  read_codec-reread :
      (info : Option TrackInfo) (t : ActiveTrack)
      → ((read_codec words info t).reread_looks ≡ t.reread_looks)
        × ((read_codec words info t).looks ≡ t.looks)
  unfolding read_codec
  read_codec-reread none t = (refl, refl)
  read_codec-reread (some info) t = (refl, refl)

  codec_at-IsFresh :
      (player : Player) (at : Option ℕ) (t : ActiveTrack) (g : ℕ)
      → 0 < n
      → IsFresh t g
      → IsFresh (codec_at words player at t) (
          if elim at [ none ↦ false | some index ↦ not (same_key t.key player.reference index) ]
          then 0
          else g)
  unfolding codec_at IsFresh
  codec_at-IsFresh player none t g some_looks (reread, age) = (reread, inl refl)
  codec_at-IsFresh player (some index) t g some_looks (reread, age) =
      elim (Bool-cases (same_key t.key player.reference index)) [
        | inl same ↦ rw same (reread, age)
        | inr other ↦
            let (reread_same, looks_same) =
              read_codec-reread (player.track_info index) (record t { looks = 0 }) in
            rw other (reread_same ∙ reread, inr (looks_same, some_looks))
      ]

  ask_codec-IsFresh :
      (player : Player) (t : ActiveTrack) (g : ℕ)
      → 0 < n
      → IsFresh t g
      → IsFresh (ask_codec words player t) (if reads_track player t then 0 else g)
  unfolding ask_codec reads_track
  ask_codec-IsFresh player t g some_looks fresh =
      codec_at-IsFresh player (active_index player) t g some_looks fresh

  Reached-IsFresh : (t : ActiveTrack) (g : ℕ) → 0 < n → Reached t g → IsFresh t g
  unfolding IsFresh new_track
  Reached-IsFresh t g some_looks at_first = (refl, inl refl)
  Reached-IsFresh t g some_looks (looks_by {t = before} {g = age} r) =
      looked-IsFresh before age some_looks (Reached-IsFresh before age some_looks r)
  Reached-IsFresh t g some_looks (forgets {t = before} {g = age} r) =
      forget-IsFresh before age (Reached-IsFresh before age some_looks r).0
  Reached-IsFresh t g some_looks (asks {t = before} {g = age} player r) =
      ask_codec-IsFresh player before age some_looks (Reached-IsFresh before age some_looks r)

  -- An answer never outlives its looks: in any run of looks, service events and asks, a codec that is
  -- still held was read fewer than `n` looks ago, however often it was asked for in between.
  pub Reached-young : (t : ActiveTrack) (g : ℕ) → 0 < n → Reached t g → t.key ≢ none → g < n
  unfolding IsFresh
  Reached-young t g some_looks r held = elim (Reached-IsFresh t g some_looks r).1 [
    | inl no_key ↦ absurd (held no_key)
    | inr (_, young) ↦ young
  ]
