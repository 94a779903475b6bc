-- ===== src/UpdateHelper/Choose/Installable.antt =====
-- What `choose` of src/MQTTBridge/updatehelper.py judges of a release, rule by rule, and the order of versions.
use mathlib.Core.Path.{subst}
use mathlib.Core.Option.{some-injective}
use mathlib.Core.List.{Mem, mem-cons_self, mem-cons_of_mem}
use enigma2_mqtt_bridge.Common.{
  ℕ, ◌≡◌, refl, sym, ap, ◌⊎◌, inl, inr, Bool, true, false, not, ◌&&◌, Option, none, some, List, [],
  ◌∷◌, String, ◌==◌, string_eq, nat_eq, option_eq, contains, eqb, All, arith, Bool-cases,
  Option-cases, eq_of_test,
}
use enigma2_mqtt_bridge.Common.Result.{ok, ok-injective}
use enigma2_mqtt_bridge.Trust.Format.{is_version, version_key}
use enigma2_mqtt_bridge.Trust.Release.{Release}
use enigma2_mqtt_bridge.Trust.Index.{Index, tuple_le}
use enigma2_mqtt_bridge.UpdateHelper.State.{Request, Integration}
use enigma2_mqtt_bridge.UpdateHelper.Choose.{
  version_lt, unmet, unmet_dependency, floor_of, raised_floor, find_release, may_downgrade,
  is_lower, judge_entry, other_contract, missing_minimum, other_checksum,
}

tuple_le_trans :
    (xs ys zs : List ℕ) → tuple_le xs ys ≡ true → tuple_le ys zs ≡ true → tuple_le xs zs ≡ true
unfolding tuple_le
tuple_le_trans [] ys zs h k = refl
tuple_le_trans (x ∷ xs) [] zs h k = cc
tuple_le_trans (x ∷ xs) (y ∷ ys) [] h k = cc
tuple_le_trans (x ∷ xs) (y ∷ ys) (z ∷ zs) h k = ground (arith, tuple_le_trans xs ys zs)

tuple_le_total : (xs ys : List ℕ) → tuple_le xs ys ≡ false → tuple_le ys xs ≡ true
unfolding tuple_le
tuple_le_total [] ys h = cc
tuple_le_total (x ∷ xs) [] h = refl
tuple_le_total (x ∷ xs) (y ∷ ys) h = ground (arith, tuple_le_total xs ys)

-- A version that is not below another is not below one that is not above that.
not_below_trans :
    (a b c : String) → version_lt a b ≡ false → version_lt b c ≡ false → version_lt a c ≡ false
unfolding version_lt
not_below_trans a b c h k =
    ap not
      (tuple_le_trans (version_key c) (version_key b) (version_key a) (ground arith) (ground arith))

not_below_both : (a b : String) → version_lt a b ≡ true → version_lt b a ≡ false
unfolding version_lt
not_below_both a b h = ap not (tuple_le_total (version_key b) (version_key a) (ground arith))

-- What an integration on the broker asks of a release.
pub record Fits (integration : Integration) (mode : Bool) (entry : Release) : Type 0 where
  pub same_contract : integration.contract ≡ some entry.contract
  pub new_enough :
      (minimum : String)
      → entry.min_integration ≡ some minimum
      → ((known : String) × (integration.version ≡ some known)
          × (is_version known ≡ true)
          × (version_lt known minimum ≡ false))
        ⊎ ((integration.version ≡ none) × (mode ≡ false))

-- The rules for a release that may be installed.
pub record IsInstallable (index : Index) (request : Request) (installed : Option (List String))
    (entry : Release) : Type 0 where
  pub listed : Mem entry index.releases
  pub is_target : entry.version ≡ request.target
  pub not_withdrawn : entry.withdrawn ≡ none
  pub above_floor : version_lt request.target index.floor ≡ false
  pub above_plugin_min :
      (integration : Integration) (wanted : String)
      → request.integration ≡ some integration
      → integration.plugin_min ≡ some wanted
      → is_version wanted ≡ true
      → version_lt request.target wanted ≡ false
  pub same_contract : entry.contract ≡ request.contract
  pub fits :
      (integration : Integration)
      → request.integration ≡ some integration
      → Fits integration request.integration_mode entry
  pub said_its_version :
      (minimum : String)
      → entry.min_integration ≡ some minimum
      → request.integration ≡ none
      → request.integration_mode ≡ false
  pub depends_installed :
      (names : List String)
      → installed ≡ some names
      → All (λ name. contains name names ≡ true) entry.depends
  pub downgrade_admitted :
      version_lt request.target request.from_version ≡ true
      → (request.downgrade_allowed ≡ true)
        × ((request.started_by ≡ "screen") ⊎ (request.started_by ≡ "page"))
  pub same_checksum : (wanted : String) → request.sha256 ≡ some wanted → wanted ≡ entry.sha256

pub find_release-Mem :
    (target : String) (releases : List Release) (entry : Release)
    → find_release target releases ≡ some entry
    → Mem entry releases × (entry.version ≡ target)
unfolding find_release
find_release-Mem target [] entry h = cc
find_release-Mem target (r ∷ releases) entry h = elim (Bool-cases (r.version == target)) [
  | inl same ↦
      subst (λ e. Mem e (r ∷ releases) × (e.version ≡ target)) (some-injective _ _ (rw same at h))
        (mem-cons_self, eq_of_test _ _ same)
  | inr differs ↦
      let (there, same) = find_release-Mem target releases entry (rw differs at h) in
      (mem-cons_of_mem r there, same)
]

pub unmet_dependency-All :
    (names installed : List String)
    → unmet_dependency names installed ≡ none
    → All (λ name. contains name installed ≡ true) names
unfolding unmet_dependency
unmet_dependency-All [] installed h = tt
unmet_dependency-All (name ∷ names) installed h = elim (Bool-cases (contains name installed)) [
  | inl there ↦ (there, unmet_dependency-All names installed (rw there at h))
  | inr missing ↦ cc (rw missing at h)
]

not_raised :
    (floor w w' : String)
    → w ≡ w'
    → is_version w' ≡ true
    → (is_version w && version_lt floor w) ≡ false
    → version_lt floor w' ≡ false
not_raised floor w w' e v h = ground arith

pub above_floors :
    (target floor : String) (wanted : Option String)
    → version_lt target (raised_floor floor wanted) ≡ false
    → (version_lt target floor ≡ false)
      × ((w : String) → wanted ≡ some w → is_version w ≡ true → version_lt target w ≡ false)
unfolding raised_floor
above_floors target floor none h = (h, λ w e v. cc)
above_floors target floor (some w) h = elim (Bool-cases (is_version w && version_lt floor w)) [
  | inl raised ↦
      let above : version_lt target w ≡ false = rw raised at h in
      (
        not_below_trans target w floor above (not_below_both floor w (ground arith)),
        λ w' e v. rw (sym (some-injective _ _ e)) above,
      )
  | inr kept ↦
      let above : version_lt target floor ≡ false = rw kept at h in
      (
        above,
        λ w' e v.
            not_below_trans target floor w' above
              (not_raised floor w w' (some-injective _ _ e) v kept),
      )
]

-- What `unmet` asks, where it finds nothing.
pub unmet-none :
    (entry : Release) (contract : ℕ) (integration : Option Integration) (mode : Bool)
    (installed : Option (List String))
    → unmet entry contract integration mode installed ≡ none
    → (eqb entry.contract contract ≡ true)
      × (other_contract entry.contract integration ≡ false)
      × (missing_minimum entry.min_integration integration mode ≡ false)
      × ((names : List String)
          → installed ≡ some names
          → unmet_dependency entry.depends names ≡ none)
unfolding unmet
unmet-none entry contract integration mode installed h =
    elim (Bool-cases (eqb entry.contract contract)) [
      | inr other ↦ cc (rw other at h)
      | inl same ↦ elim (Bool-cases (other_contract entry.contract integration)) [
        | inl other ↦ cc (rw (same, other) at h)
        | inr fine ↦ elim (Bool-cases (missing_minimum entry.min_integration integration mode)) [
          | inl low ↦ cc (rw (same, fine, low) at h)
          | inr high ↦ (same, fine, high, λ names e. rw e at (rw (same, fine, high) at h))
        ]
      ]
    ]

abbrev pub Judged : Index → Request → Option (List String) → Release → Type 0
Judged index request installed r =
    (r.withdrawn ≡ none)
    × (version_lt request.target (floor_of index request.integration) ≡ false)
    × (unmet r request.contract request.integration request.integration_mode installed ≡ none)
    × ((is_lower request && not (may_downgrade request)) ≡ false)
    × (other_checksum request.sha256 r.sha256 ≡ false)

pub judge_entry-ok :
    (index : Index) (request : Request) (installed : Option (List String)) (r entry : Release)
    → judge_entry index request installed r ≡ ok entry
    → (r ≡ entry) × Judged index request installed r
unfolding judge_entry
judge_entry-ok index request installed r entry h = elim (Bool-cases (r.withdrawn == none)) [
  | inr gone ↦ cc (rw gone at h)
  | inl there ↦ elim (Bool-cases (version_lt request.target (floor_of index request.integration))) [
    | inl low ↦ cc (rw (there, low) at h)
    | inr high ↦
        elim (Option-cases
          (unmet r request.contract request.integration request.integration_mode installed)) [
            | inr (reason, some_reason) ↦ cc (rw (there, high, some_reason) at h)
            | inl met ↦ elim (Bool-cases (is_lower request && not (may_downgrade request))) [
              | inl refused ↦ cc (rw (there, high, met, refused) at h)
              | inr admitted ↦ elim (Bool-cases (other_checksum request.sha256 r.sha256)) [
                | inl other ↦ cc (rw (there, high, met, admitted, other) at h)
                | inr same ↦ (
                  ok-injective (rw (there, high, met, admitted, same) at h),
                  (eq_of_test _ _ there, high, met, admitted, same),
                )
              ]
            ]
          ]
  ]
]
