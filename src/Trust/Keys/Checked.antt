-- ===== src/Trust/Keys/Checked.antt =====
-- `check_keys`: what a reader may rely on in a key set.
use mathlib.Core.Path.{subst}
use enigma2_mqtt_bridge.Common.{
  ℕ, ◌≤◌, ◌<◌, ◌≡◌, ◌≢◌, sym, ap, inl, inr, true, false, not, Option, none, some, List, [], ◌∷◌,
  String, ◌==◌, string_eq, nat_eq, contains, leb, eqb, length, All, arith, Bool-cases, eq_of_test,
  ne_of_test, eqb→eq, leb→le,
}
use enigma2_mqtt_bridge.Common.Result.{ok, or_raise, >>=-eq-ok, guard-eq-ok, ok-injective}
use enigma2_mqtt_bridge.Common.Sorting.{insert_by, sort_by}
use enigma2_mqtt_bridge.Json.{whole, text}
use enigma2_mqtt_bridge.Ed25519.{Point, decode_point, public_key_bytes}
use enigma2_mqtt_bridge.Trust.Platform.{Platform}
use enigma2_mqtt_bridge.Trust.Keys.{
  malformed_index, Key, RawKey, by_rank, key_ids, key_ranks, distinct, derived_id, check_key,
  check_each, check_keys,
}

-- The id is derived from the public key, which is a point, and the rank is 1 or more.
pub record IsSound (platform : Platform) (key : Key) : Type 0 where
  pub size : length key.public ≡ 32
  pub point : Point
  pub decoded : decode_point key.public ≡ some point
  pub derived : key.key_id ≡ derived_id platform key.public
  pub ranked : 1 ≤ key.key_rank

-- Each rank is above the one before it, and no two keys share an id.
abbrev pub IsAscending : List Key → Type 0
IsAscending [] = Unit
IsAscending (key ∷ keys) = All (λ other. key.key_rank < other.key_rank) keys × IsAscending keys

abbrev pub IsApart : List Key → Type 0
IsApart [] = Unit
IsApart (key ∷ keys) = All (λ other. other.key_id ≢ key.key_id) keys × IsApart keys

module _ (P : Key → Type 0) where
  All-insert_by :
      (key : Key) (keys : List Key) → P key → All P keys → All P (insert_by by_rank key keys)
  unfolding insert_by
  All-insert_by key [] p ps = (p, tt)
  All-insert_by key (k ∷ keys) p (q, ps) = elim (Bool-cases (by_rank key k)) [
    | inl low ↦ rw low (p, (q, ps))
    | inr high ↦ rw high (q, All-insert_by key keys p ps)
  ]

  All-sort_by : (keys : List Key) → All P keys → All P (sort_by by_rank keys)
  unfolding sort_by
  All-sort_by [] ps = tt
  All-sort_by (key ∷ keys) (p, ps) =
      All-insert_by key (sort_by by_rank keys) p (All-sort_by keys ps)

All-below :
    (low high : ℕ) (keys : List Key)
    → low < high
    → All (λ other. high < other.key_rank) keys
    → All (λ other. low < other.key_rank) keys
All-below low high [] lt all_above = tt
All-below low high (k ∷ keys) lt (above, rest) = (omega arith, All-below low high keys lt rest)

insert_by-IsAscending :
    (key : Key) (keys : List Key)
    → All (λ other. other.key_rank ≢ key.key_rank) keys
    → IsAscending keys
    → IsAscending (insert_by by_rank key keys)
unfolding insert_by
insert_by-IsAscending key [] ne sorted = (tt, tt)
insert_by-IsAscending key (k ∷ keys) (ne, rest) (above, sorted) =
    elim (Bool-cases (by_rank key k)) [
      | inl low ↦
          let lt : key.key_rank < k.key_rank = ground arith in
          rw low ((lt, All-below key.key_rank k.key_rank keys lt above), (above, sorted))
      | inr high ↦
          let lt : k.key_rank < key.key_rank = ground arith in
          rw high (
            All-insert_by (λ other. k.key_rank < other.key_rank) key keys lt above,
            insert_by-IsAscending key keys rest sorted,
          )
    ]

insert_by-IsApart :
    (key : Key) (keys : List Key)
    → All (λ other. other.key_id ≢ key.key_id) keys
    → IsApart keys
    → IsApart (insert_by by_rank key keys)
unfolding insert_by
insert_by-IsApart key [] ne apart = (tt, tt)
insert_by-IsApart key (k ∷ keys) (ne, rest) (others, apart) = elim (Bool-cases (by_rank key k)) [
  | inl low ↦ rw low ((ne, rest), (others, apart))
  | inr high ↦ rw high (
    All-insert_by (λ other. other.key_id ≢ k.key_id) key keys (λ e. ne (sym e)) others,
    insert_by-IsApart key keys rest apart,
  )
]

-- From the tests on the sets of ids and of ranks.
id_apart :
    (id : String) (keys : List Key)
    → contains id (key_ids keys) ≡ false
    → All (λ other. other.key_id ≢ id) keys
id_apart id [] h = tt
id_apart id (k ∷ keys) h = elim (Bool-cases (id == k.key_id)) [
  | inl same ↦ absurd (cc (rw same at h))
  | inr other ↦ (λ e. ne_of_test id k.key_id other (sym e), id_apart id keys (rw other at h))
]

rank_apart :
    (r : ℕ) (keys : List Key)
    → contains r (key_ranks keys) ≡ false
    → All (λ other. other.key_rank ≢ r) keys
rank_apart r [] h = tt
rank_apart r (k ∷ keys) h = elim (Bool-cases (r == k.key_rank)) [
  | inl same ↦ absurd (cc (rw same at h))
  | inr other ↦ (λ e. ne_of_test r k.key_rank other (sym e), rank_apart r keys (rw other at h))
]

sort_by-IsAscending :
    (keys : List Key) → distinct (key_ranks keys) ≡ true → IsAscending (sort_by by_rank keys)
unfolding sort_by
sort_by-IsAscending [] h = tt
sort_by-IsAscending (key ∷ keys) h =
    insert_by-IsAscending key (sort_by by_rank keys)
      (All-sort_by (λ other. other.key_rank ≢ key.key_rank) keys
        (rank_apart key.key_rank keys (ground arith)))
      (sort_by-IsAscending keys (ground arith))

sort_by-IsApart :
    (keys : List Key) → distinct (key_ids keys) ≡ true → IsApart (sort_by by_rank keys)
unfolding sort_by
sort_by-IsApart [] h = tt
sort_by-IsApart (key ∷ keys) h =
    insert_by-IsApart key (sort_by by_rank keys)
      (All-sort_by (λ other. other.key_id ≢ key.key_id) keys
        (id_apart key.key_id keys (ground arith)))
      (sort_by-IsApart keys (ground arith))

or_raise-some : {A : Type 0} (o : Option A) (a : A) → or_raise o malformed_index ≡ ok a → o ≡ some a
or_raise-some none a h = cc
or_raise-some (some b) a h = ap some (ok-injective h)

module _ (platform : Platform) where
  check_key-IsSound :
      (raw : RawKey) (key : Key) → check_key platform raw ≡ ok key → IsSound platform key
  unfolding check_key
  check_key-IsSound raw key h0 =
      let (size, h1) =
        guard-eq-ok (eqb (length raw.raw_public) public_key_bytes) malformed_index _ h0 in
      let (point, e_point, h2) =
        >>=-eq-ok (or_raise (decode_point raw.raw_public) malformed_index) _ h1 in
      let (id, e_id, h3) = >>=-eq-ok (or_raise (text raw.raw_id) malformed_index) _ h2 in
      let (derived, h4) =
        guard-eq-ok (id == derived_id platform raw.raw_public) malformed_index _ h3 in
      let (r, e_rank, h5) = >>=-eq-ok (or_raise (whole raw.raw_rank) malformed_index) _ h4 in
      let (ranked, h6) = guard-eq-ok (leb 1 r) malformed_index _ h5 in
      let (b, e_base, h7) = >>=-eq-ok (or_raise (whole raw.raw_baseline) malformed_index) _ h6 in
      subst (IsSound platform) (ok-injective h7) (record {
        size = eqb→eq _ _ size;
        point = point;
        decoded = or_raise-some (decode_point raw.raw_public) point e_point;
        derived = eq_of_test id (derived_id platform raw.raw_public) derived;
        ranked = leb→le _ _ ranked;
      })

  check_each-IsSound :
      (raws : List RawKey) (keys : List Key)
      → check_each platform raws ≡ ok keys
      → All (IsSound platform) keys
  unfolding check_each
  check_each-IsSound [] keys h = subst (All (IsSound platform)) (ok-injective h) tt
  check_each-IsSound (raw ∷ raws) keys h =
      let (key, e_key, h1) = >>=-eq-ok (check_key platform raw) _ h in
      let (rest, e_rest, h2) = >>=-eq-ok (check_each platform raws) _ h1 in
      subst (All (IsSound platform)) (ok-injective h2)
        (check_key-IsSound raw key e_key, check_each-IsSound raws rest e_rest)

  -- A key set that is accepted has its keys in the order of their ranks, each above the one before it;
  -- no two of them share an id; and the id of each is derived from its public key, which is a point
  -- of the curve in 32 bytes, with a rank of 1 or more.
  pub check_keys-IsAscending :
      (raws : List RawKey) (keys : List Key)
      → check_keys platform raws ≡ ok keys
      → IsAscending keys × IsApart keys × All (IsSound platform) keys
  unfolding check_keys
  check_keys-IsAscending raws keys h0 =
      let (some_raws, h1) = guard-eq-ok (not (eqb (length raws) 0)) malformed_index _ h0 in
      let (checked, e, h2) = >>=-eq-ok (check_each platform raws) _ h1 in
      let (ids, h3) = guard-eq-ok (distinct (key_ids checked)) malformed_index _ h2 in
      let (ranks, h4) = guard-eq-ok (distinct (key_ranks checked)) malformed_index _ h3 in
      subst (λ ks. IsAscending ks × IsApart ks × All (IsSound platform) ks) (ok-injective h4)
        (
          sort_by-IsAscending checked ranks,
          sort_by-IsApart checked ids,
          All-sort_by (IsSound platform) checked (check_each-IsSound raws checked e),
        )
