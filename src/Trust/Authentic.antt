-- ===== src/Trust/Authentic.antt =====
-- `authenticate` and `accept`: whose signature an accepted index carries.
use mathlib.Core.Path.{subst}
use enigma2_mqtt_bridge.Common.{
  ◌≡◌, sym, ap, true, false, Option, none, some, List, [], ◌∷◌, String, ◌==◌, string_eq, contains,
  leb, length, arith, eq_of_test,
}
use enigma2_mqtt_bridge.Common.Result.{ok, or_raise, >>=-eq-ok, guard-eq-ok, ok-injective}
use enigma2_mqtt_bridge.Ed25519.{Bytes, verify}
use enigma2_mqtt_bridge.Ed25519.Strict.{IsSigned, verify-iff-IsSigned}
use enigma2_mqtt_bridge.Trust.Platform.{Platform}
use enigma2_mqtt_bridge.Trust.Keys.{
  Reason, too_large, unknown_key, bad_signature, key_mismatch, Key, by_id, key_ids,
}
use enigma2_mqtt_bridge.Trust.Memory.{Memory, remember}
use enigma2_mqtt_bridge.Trust.Index.{Signature, max_index_bytes, parse_signature, parse_index}
use enigma2_mqtt_bridge.Trust.Index.Checked.{IsWellFormed, parse_index-IsWellFormed}
use enigma2_mqtt_bridge.Trust.Accept.{Authentic, authenticate, judge, Accepted, accept}
use enigma2_mqtt_bridge.Trust.Rule.{IsAdmissible, judge-iff-IsAdmissible}

or_raise-eq-ok : {A : Type 0} (o : Option A) (e : Reason) {a : A} → or_raise o e ≡ ok a → o ≡ some a
or_raise-eq-ok none e h = cc
or_raise-eq-ok (some b) e h = ap some (ok-injective h)

-- `by_id` finds a key of the set, with the id that was asked for.
pub by_id-found :
    (keys : List Key) (wanted : String) (key : Key)
    → by_id keys wanted ≡ some key
    → (key.key_id ≡ wanted) × (contains wanted (key_ids keys) ≡ true)
unfolding by_id
by_id-found [] wanted key h = cc
by_id-found (k ∷ keys) wanted key h =
    ground (arith, by_id-found keys wanted key, eq_of_test k.key_id wanted)

module _ (platform : Platform) (index_raw signature_raw : Bytes) (keys : List Key) where
  -- One of the reader's keys signed exactly these bytes.
  pub record IsAuthentic (found : Authentic) : Type 0 where
    pub held : by_id keys found.key.key_id ≡ some found.key
    pub signed : Signature
    pub signature_file : parse_signature platform signature_raw ≡ ok signed
    pub signer : signed.signer_id ≡ found.key.key_id
    pub genuine : IsSigned platform.sha512 found.key.public index_raw signed.signature
    pub parsed : parse_index platform index_raw false ≡ ok found.index
    pub names_signer : found.index.index_key ≡ found.key.key_id

  -- Steps 1 to 4: what `authenticate` returns was signed, over the very bytes of the index, by the
  -- key of the reader's set that the signature file names, and the index itself names that key.
  pub authenticate-IsAuthentic :
      (found : Authentic)
      → authenticate platform index_raw signature_raw keys ≡ ok found
      → IsAuthentic found
  unfolding authenticate
  authenticate-IsAuthentic found h0 =
      let (small, h1) = guard-eq-ok (leb (length index_raw) max_index_bytes) too_large _ h0 in
      let (signed, file, h2) = >>=-eq-ok (parse_signature platform signature_raw) _ h1 in
      let (key, lookup_key, h3) =
        >>=-eq-ok (or_raise (by_id keys signed.signer_id) unknown_key) _ h2 in
      let (good, h4) =
        guard-eq-ok (verify platform.sha512 key.public index_raw signed.signature) bad_signature _
          h3 in
      let (index, parsed, h5) = >>=-eq-ok (parse_index platform index_raw false) _ h4 in
      let (same, h6) = guard-eq-ok (index.index_key == key.key_id) key_mismatch _ h5 in
      let stored : by_id keys signed.signer_id ≡ some key =
        or_raise-eq-ok _ unknown_key lookup_key in
      let (id, _) = by_id-found keys signed.signer_id key stored in
      subst IsAuthentic (ok-injective h6) (record {
        held = rw id stored;
        signed = signed;
        signature_file = file;
        signer = sym id;
        genuine =
            (verify-iff-IsSigned platform.sha512 key.public index_raw signed.signature).0 good;
        parsed = parsed;
        names_signer = eq_of_test index.index_key key.key_id same;
      })

  -- An accepted index is authentic, well formed, and admitted by the rule for the memory it is
  -- judged with; and the memory that is handed back is the one that remembers it.
  pub accept_sound :
      (memory : Memory) (result : Accepted)
      → accept platform index_raw signature_raw keys memory ≡ ok result
      → let found = result.accepted in
        IsAuthentic found
        × IsWellFormed index_raw found.index
        × IsAdmissible found.index found.key keys memory
        × (result.memory ≡ remember memory found.key found.index.serial keys)
  unfolding accept
  accept_sound memory result h0 =
      let (found, authentic, h1) =
        >>=-eq-ok (authenticate platform index_raw signature_raw keys) _ h0 in
      let (next, judged, h2) = >>=-eq-ok (judge found.index found.key keys memory) _ h1 in
      let a : IsAuthentic found = authenticate-IsAuthentic found authentic in
      let (admitted, remembered) =
        (judge-iff-IsAdmissible found.index found.key keys memory next).0 judged in
      subst
        (λ (r : Accepted).
          IsAuthentic r.accepted
          × IsWellFormed index_raw r.accepted.index
          × IsAdmissible r.accepted.index r.accepted.key keys memory
          × (r.memory ≡ remember memory r.accepted.key r.accepted.index.serial keys))
        (ok-injective h2)
        (
          a,
          parse_index-IsWellFormed platform index_raw false found.index a.parsed,
          admitted,
          remembered,
        )
