-- ===== src/Trust/History.antt =====
-- What a reader's memory keeps over any run of accepted indexes, under any key sets.
use mathlib.Core.List.{Memᴰ}
use mathlib.Core.Path.{subst}
use mathlib.Core.Option.{none-ne-some, some-injective}
use enigma2_mqtt_bridge.Common.{
  ℕ, suc, ◌+◌, ◌*◌, ◌≤◌, ◌<◌, ◌≡◌, ◌≢◌, refl, sym, ◌∙◌, inl, inr, true, ◌||◌, Option, none, some,
  List, [], ◌∷◌, String, ◌==◌, string_eq, contains, if◌then◌else◌, arith, Bool-cases, lt→ltb,
  eq_of_test, test_refl,
}
use enigma2_mqtt_bridge.Common.Result.{ok, err}
use enigma2_mqtt_bridge.Common.Dict.{lookup, lookup-insert}
use enigma2_mqtt_bridge.Common.Sorting.{contains-append, contains-sorted_set}
use enigma2_mqtt_bridge.Trust.Keys.{rank, Key}
use enigma2_mqtt_bridge.Trust.Memory.{Memory, ranked_below, remember}
use enigma2_mqtt_bridge.Trust.Index.{Index}
use enigma2_mqtt_bridge.Trust.Accept.{max_jump, judge}
use enigma2_mqtt_bridge.Trust.Rule.{InWindow, judge-iff-IsAdmissible}

-- One accepted index.
pub data Step (m n : Memory) : Type 0 where
  take_in : (index : Index) (key : Key) (keys : List Key) → judge index key keys m ≡ ok n → Step m n

-- A run of accepted indexes.
pub data History (m : Memory) : Memory → Type 0 where
  start : History m m
  later : {n o : Memory} → History m n → Step n o → History m o

-- How many of them were signed by the key `id`.
abbrev pub signed_by : {m n : Memory} → String → History m n → ℕ
signed_by id start = 0
signed_by id (later h (take_in index key keys e)) =
    if id == key.key_id then suc (signed_by id h) else signed_by id h

-- Every key of that id that signed one of them has its baseline at `b` or below.
abbrev pub BaselineAtMost : {m n : Memory} → String → ℕ → History m n → Type 0
BaselineAtMost id b start = Unit
BaselineAtMost id b (later h (take_in index key keys e)) =
    (key.key_id ≡ id → key.baseline ≤ b) × BaselineAtMost id b h

remember-silenced :
    (id : String) (m : Memory) (key : Key) (serial : ℕ) (keys : List Key)
    → contains id (remember m key serial keys).silenced
      ≡ (contains id m.silenced || contains id (ranked_below key.key_rank keys))
unfolding remember
remember-silenced id m key serial keys = contains-sorted_set id _ ∙ contains-append id m.silenced _

remember-serials :
    (id : String) (m : Memory) (key : Key) (serial : ℕ) (keys : List Key)
    → lookup id (remember m key serial keys).serials
      ≡ (if id == key.key_id then some serial else lookup id m.serials)
unfolding remember
remember-serials id m key serial keys = lookup-insert id key.key_id serial m.serials

ranked_below-head :
    (r : ℕ) (other : Key) (keys : List Key)
    → other.key_rank < r
    → contains other.key_id (ranked_below r (other ∷ keys)) ≡ true
unfolding ranked_below
ranked_below-head r other keys lt = rw (lt→ltb _ _ lt) (ground arith)

ranked_below-mem :
    (r : ℕ) (other : Key) (keys : List Key)
    → Memᴰ other keys
    → other.key_rank < r
    → contains other.key_id (ranked_below r keys) ≡ true
unfolding ranked_below
ranked_below-mem r other [] m lt = elim m [ ]
ranked_below-mem r other (key ∷ keys) (Memᴰ.head e) lt =
    subst (λ k. contains other.key_id (ranked_below r (k ∷ keys)) ≡ true) e
      (ranked_below-head r other keys lt)
ranked_below-mem r other (key ∷ keys) (Memᴰ.tail m) lt =
    ground (arith, ranked_below-mem r other keys m lt)

Step-silenced :
    {m n : Memory} (id : String)
    → Step m n
    → contains id m.silenced ≡ true
    → contains id n.silenced ≡ true
Step-silenced {m} {n} id (take_in index key keys e) h =
    let f : n ≡ remember m key index.serial keys =
      ((judge-iff-IsAdmissible index key keys m n).0 e).1 in
    rw (f, remember-silenced, h) refl

pub History-silenced :
    {m n : Memory} (id : String)
    → History m n
    → contains id m.silenced ≡ true
    → contains id n.silenced ≡ true
History-silenced id start h = h
History-silenced id (later r s) h = Step-silenced id s (History-silenced id r h)

-- "Ignored for good": once a key is silenced, every index that it signs is refused as `rank`,
-- whatever was accepted in between and whatever key set the reader then holds.
pub judge-silenced_for_good :
    {m n : Memory} (index : Index) (key : Key) (keys : List Key)
    → contains key.key_id m.silenced ≡ true
    → History m n
    → judge index key keys n ≡ err rank
unfolding judge
judge-silenced_for_good index key keys h r = rw (History-silenced key.key_id r h) refl

accepted_silences :
    (m n : Memory) (index : Index) (key other : Key) (keys : List Key)
    → judge index key keys m ≡ ok n
    → Memᴰ other keys
    → other.key_rank < key.key_rank
    → contains other.key_id n.silenced ≡ true
accepted_silences m n index key other keys e mem lt =
    let f : n ≡ remember m key index.serial keys =
      ((judge-iff-IsAdmissible index key keys m n).0 e).1 in
    rw (f, remember-silenced, ranked_below-mem key.key_rank other keys mem lt) (ground arith)

-- Accepting an index from a key shuts out, for good, every key of the set that is ranked below it.
pub judge-outranked_for_good :
    (m n o : Memory) (index later_index : Index) (key other : Key) (keys later_keys : List Key)
    → judge index key keys m ≡ ok n
    → Memᴰ other keys
    → other.key_rank < key.key_rank
    → History n o
    → judge later_index other later_keys o ≡ err rank
judge-outranked_for_good m n o index later_index key other keys later_keys e mem lt r =
    judge-silenced_for_good later_index other later_keys
      (accepted_silences m n index key other keys e mem lt) r

Step-serial :
    {m n : Memory} (id : String) (s : ℕ)
    → Step m n
    → lookup id m.serials ≡ some s
    → (t : ℕ) × (lookup id n.serials ≡ some t) × (s ≤ t)
Step-serial {m} {n} id s (take_in index key keys e) h =
    let (a, f) = (judge-iff-IsAdmissible index key keys m n).0 e in
    elim (Bool-cases (id == key.key_id)) [
      | inl same ↦
          let known : lookup key.key_id m.serials ≡ some s =
            rw (← eq_of_test id key.key_id same) h in
          let w : InWindow key.baseline (some s) index.serial = rw known at a.in_window in
          (index.serial, rw (f, remember-serials, same) refl, omega arith)
      | inr other ↦ (s, rw (f, remember-serials, other) h, omega arith)
    ]

pub History-serial :
    {m n : Memory} (id : String) (s : ℕ)
    → History m n
    → lookup id m.serials ≡ some s
    → (t : ℕ) × (lookup id n.serials ≡ some t) × (s ≤ t)
History-serial id s start h = (s, h, omega arith)
History-serial id s (later r st) h =
    let (t, e, le) = History-serial id s r h in
    let (u, f, ge) = Step-serial id t st e in (u, f, omega arith)

-- No replay, ever: after an index was accepted, no index of the same key with the same or a lower
-- serial is accepted again, under any key set and after any number of other indexes.
pub judge-never_again :
    (m n o p : Memory) (index again : Index) (key key' : Key) (keys keys' : List Key)
    → judge index key keys m ≡ ok n
    → History n o
    → key'.key_id ≡ key.key_id
    → again.serial ≤ index.serial
    → judge again key' keys' o ≢ ok p
judge-never_again m n o p index again key key' keys keys' e r same le f =
    let (a, next) = (judge-iff-IsAdmissible index key keys m n).0 e in
    let (t, known, ge) =
      History-serial key.key_id index.serial r
        (rw (next, remember-serials, test_refl key.key_id) refl) in
    let w : InWindow key'.baseline (lookup key'.key_id o.serials) again.serial =
      ((judge-iff-IsAdmissible again key' keys' o p).0 f).0.in_window in
    let v : InWindow key'.baseline (some t) again.serial = rw (same, known) at w in omega arith

window_bound :
    (b baseline : ℕ) (o : Option ℕ) (s count : ℕ)
    → baseline ≤ b
    → ((t : ℕ) → o ≡ some t → t ≤ b + max_jump * count)
    → InWindow baseline o s
    → s ≤ b + max_jump * suc count
window_bound b baseline none s count le known w = omega arith
window_bound b baseline (some t) s count le known w = omega (arith, known t refl)

-- A stolen key cannot run far ahead: after any run, the last serial accepted from a key is at
-- most 1000 above its baseline for every index that it signed in the run, if the memory had no serial
-- of it when the run began.
pub History-serial_bound :
    {m n : Memory} (id : String) (b s : ℕ) (r : History m n)
    → lookup id m.serials ≡ none
    → BaselineAtMost id b r
    → lookup id n.serials ≡ some s
    → s ≤ b + max_jump * signed_by id r
History-serial_bound id b s start h base e = absurd (none-ne-some s (sym h ∙ e))
History-serial_bound {m} id b s (later {n} {o} r (take_in index key keys j)) h base e =
    let (a, f) = (judge-iff-IsAdmissible index key keys n o).0 j in
    elim (Bool-cases (id == key.key_id)) [
      | inr other ↦
          rw other (History-serial_bound id b s r h base.1 (rw (f, remember-serials, other) at e))
      | inl same ↦
          let p : key.key_id ≡ id = sym (eq_of_test id key.key_id same) in
          let fresh : index.serial ≡ s = some-injective _ _ (rw (f, remember-serials, same) at e) in
          let w : InWindow key.baseline (lookup id n.serials) index.serial = rw p at a.in_window in
          rw (same, ← fresh)
            (window_bound b key.baseline (lookup id n.serials) index.serial (signed_by id r)
              (base.0 p) (λ t known. History-serial_bound id b t r h base.1 known) w)
    ]
