-- ===== src/Trust/Rule.antt =====
-- `judge` against the rule that the module's docstring states, steps 5 and 6.
use enigma2_mqtt_bridge.Common.{
  ℕ, ◌+◌, ◌≤◌, ◌<◌, ◌≡◌, refl, sym, ap, ◌∙◌, ◌⊎◌, ◌↔◌, inl, inr, true, false, ◌&&◌, Option, none,
  some, List, [], ◌∷◌, string_eq, contains, leb, ltb, All, arith, Bool-cases, not-ltb→le, leb→le,
  ltb→lt,
}
use mathlib.Core.Path.{subst}
use enigma2_mqtt_bridge.Common.Result.{
  Result, ok, err, ◌>>◌, >>=-eq-ok, ok-injective, err-injective,
}
use enigma2_mqtt_bridge.Common.Dict.{lookup, has_key}
use enigma2_mqtt_bridge.Trust.Keys.{Reason, rank, replay, jump, first_sight, Key}
use enigma2_mqtt_bridge.Trust.Memory.{Memory, rank_floor, remember}
use enigma2_mqtt_bridge.Trust.Index.{Index}
use enigma2_mqtt_bridge.Trust.Accept.{max_jump, check_serial, judge}

-- No key of the set that was ever accepted is ranked above `rank`.
abbrev pub NoneAbove : List Key → Memory → ℕ → Type 0
NoneAbove keys memory r =
    All (λ key. has_key key.key_id memory.serials ≡ true → key.key_rank ≤ r) keys

-- Where the serial may lie: near the baseline at first sight, and above the last one later.
abbrev pub InWindow : ℕ → Option ℕ → ℕ → Type 0
InWindow baseline none serial = (baseline ≤ serial) × (serial ≤ baseline + max_jump)
InWindow baseline (some stored) serial = (stored < serial) × (serial ≤ stored + max_jump)

-- The rule of the docstring.
pub record IsAdmissible (index : Index) (key : Key) (keys : List Key) (memory : Memory)
    : Type 0 where
  pub not_silenced : contains key.key_id memory.silenced ≡ false
  pub none_above : NoneAbove keys memory key.key_rank
  pub in_window : InWindow key.baseline (lookup key.key_id memory.serials) index.serial

pub rank_floor-le :
    (keys : List Key) (memory : Memory) (r : ℕ)
    → NoneAbove keys memory r
    → rank_floor keys memory ≤ r
unfolding rank_floor
rank_floor-le [] memory r h = omega arith
rank_floor-le (key ∷ keys) memory r h = ground (arith, rank_floor-le keys memory r h.1, h.0)

pub NoneAbove-floor :
    (keys : List Key) (memory : Memory) (r : ℕ)
    → rank_floor keys memory ≤ r
    → NoneAbove keys memory r
unfolding rank_floor
NoneAbove-floor [] memory r h = tt
NoneAbove-floor (key ∷ keys) memory r h =
    (λ e. ground arith, NoneAbove-floor keys memory r (ground arith))

pub check_serial_iff :
    (b : ℕ) (o : Option ℕ) (s : ℕ) → (check_serial b o s ≡ ok tt) ↔ InWindow b o s
unfolding check_serial
check_serial_iff b none s = (λ h. ground arith, λ h. ground arith)
check_serial_iff b (some stored) s = (λ h. ground arith, λ h. ground arith)

Unit-path : (u : Unit {0}) → u ≡ tt
Unit-path tt = refl

judge-IsAdmissible :
    (index : Index) (key : Key) (keys : List Key) (memory next : Memory)
    → judge index key keys memory ≡ ok next
    → IsAdmissible index key keys memory × (next ≡ remember memory key index.serial keys)
unfolding judge
judge-IsAdmissible index key keys memory next h =
    elim (Bool-cases (contains key.key_id memory.silenced)) [
      | inl quiet ↦ cc (rw quiet at h)
      | inr loud ↦ elim (Bool-cases (ltb key.key_rank (rank_floor keys memory))) [
        | inl low ↦ cc (rw (loud, low) at h)
        | inr high ↦
            let k : (check_serial key.baseline (lookup key.key_id memory.serials) index.serial
                  >> ok (remember memory key index.serial keys))
                ≡ ok next =
              rw (loud, high) at h in
            let (u, e, f) =
              >>=-eq-ok (check_serial key.baseline (lookup key.key_id memory.serials) index.serial)
                _ k in
            (
              record {
                not_silenced = loud;
                none_above = NoneAbove-floor keys memory key.key_rank (not-ltb→le _ _ high);
                in_window = (check_serial_iff _ _ _).0 (e ∙ ap ok (Unit-path u));
              },
              sym (ok-injective f),
            )
      ]
    ]

le→not-ltb : (a b : ℕ) → b ≤ a → ltb a b ≡ false
le→not-ltb a b h = ground arith

admissible-judge :
    (index : Index) (key : Key) (keys : List Key) (memory next : Memory)
    → IsAdmissible index key keys memory
    → next ≡ remember memory key index.serial keys
    → judge index key keys memory ≡ ok next
unfolding judge
admissible-judge index key keys memory next a e =
    rw
      (
        a.not_silenced,
        le→not-ltb _ _ (rank_floor-le keys memory key.key_rank a.none_above),
        (check_serial_iff key.baseline (lookup key.key_id memory.serials) index.serial).1
            a.in_window,
        e,
      )
      refl

-- An index is accepted exactly when the rule admits it, and then the memory is the one that
-- remembers its serial and silences the keys of the set ranked below its key.
pub judge-iff-IsAdmissible :
    (index : Index) (key : Key) (keys : List Key) (memory next : Memory)
    → (judge index key keys memory ≡ ok next)
      ↔ (IsAdmissible index key keys memory × (next ≡ remember memory key index.serial keys))
unfolding judge
judge-iff-IsAdmissible index key keys memory next = (
  judge-IsAdmissible index key keys memory next,
  λ h. admissible-judge index key keys memory next h.0 h.1,
)

ltb-false : {a b : ℕ} → ltb a b ≡ true → b ≤ a → ⊥
ltb-false t le = ground arith

bind-eq-err :
    (m : Result Reason (Unit {0})) (next : Memory) {r : Reason} → (m >> ok next) ≡ err r → m ≡ err r
bind-eq-err (ok u) next h = cc
bind-eq-err (err e) next h = ap err (err-injective h)

-- Why an index is refused with each reason.
abbrev pub Refusal : Index → Key → List Key → Memory → Reason → Type 0
Refusal index key keys memory rank =
    (contains key.key_id memory.silenced ≡ true) ⊎ (¬ NoneAbove keys memory key.key_rank)
Refusal index key keys memory replay =
    (stored : ℕ) × (lookup key.key_id memory.serials ≡ some stored) × (index.serial ≤ stored)
Refusal index key keys memory jump =
    (stored : ℕ) × (lookup key.key_id memory.serials ≡ some stored)
    × (stored + max_jump < index.serial)
Refusal index key keys memory first_sight =
    (lookup key.key_id memory.serials ≡ none) × ¬ InWindow key.baseline none index.serial
Refusal index key keys memory _ = ⊥

far_window : (b s : ℕ) → (leb b s && leb s (b + max_jump)) ≡ false → InWindow b none s → ⊥
far_window b s f w = ground arith

check_serial-Refusal :
    (index : Index) (key : Key) (keys : List Key) (memory : Memory) (o : Option ℕ) (r : Reason)
    → lookup key.key_id memory.serials ≡ o
    → check_serial key.baseline o index.serial ≡ err r
    → Refusal index key keys memory r
unfolding check_serial
check_serial-Refusal index key keys memory none r e h =
    elim (Bool-cases
      (leb key.baseline index.serial && leb index.serial (key.baseline + max_jump))) [
        | inl near ↦ absurd (cc (rw near at h))
        | inr far ↦
            subst (Refusal index key keys memory) (err-injective (rw far at h))
              (e, λ w. far_window key.baseline index.serial far w)
      ]
check_serial-Refusal index key keys memory (some stored) r e h =
    elim (Bool-cases (leb index.serial stored)) [
      | inl old ↦
          subst (Refusal index key keys memory) (err-injective (rw old at h))
            (stored, e, leb→le _ _ old)
      | inr new ↦ elim (Bool-cases (ltb (stored + max_jump) index.serial)) [
        | inl high ↦
            subst (Refusal index key keys memory) (err-injective (rw (new, high) at h))
              (stored, e, ltb→lt _ _ high)
        | inr fits ↦ absurd (cc (rw (new, fits) at h))
      ]
    ]

-- A refusal names its cause, and there is no other cause: the key is silenced or outranked, or
-- the serial is not new, or it is too far above the last one, or too far from the baseline.
pub judge-Refusal :
    (index : Index) (key : Key) (keys : List Key) (memory : Memory) (r : Reason)
    → judge index key keys memory ≡ err r
    → Refusal index key keys memory r
unfolding judge
judge-Refusal index key keys memory r h = elim (Bool-cases (contains key.key_id memory.silenced)) [
  | inl quiet ↦ subst (Refusal index key keys memory) (err-injective (rw quiet at h)) (inl quiet)
  | inr loud ↦ elim (Bool-cases (ltb key.key_rank (rank_floor keys memory))) [
    | inl low ↦
        subst (Refusal index key keys memory) (err-injective (rw (loud, low) at h))
          (inr (λ n. ltb-false low (rank_floor-le keys memory key.key_rank n)))
    | inr high ↦
        check_serial-Refusal index key keys memory _ r refl (bind-eq-err _ _ (rw (loud, high) at h))
  ]
]
