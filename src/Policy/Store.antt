-- ===== src/Policy/Store.antt =====
-- crates/mesh-coordinator/src/policy/store.rs: the live policy behind an `ETag`.
pub mod Etag
pub mod Updates
use tabbify_service_mesh.Hash.{fnv_prime, u64_mod, fnv1a64}
use tabbify_service_mesh.Shared.{
  ltb, if◌then◌else◌, ◌==◌, nat_eq, list_eq, option_eq, pair_eq, Text, ℕ, zero, suc, ◌+◌, ◌-◌, ◌*◌,
  ◌/◌, ◌%◌, none, some, List, [], ◌∷◌, ◌++◌,
}
use tabbify_service_mesh.Policy.{Policy, PolicyValidationError, validate}
use Prim.Native.Nat.{bit_xor}

abbrev pub hex_digit : ℕ → ℕ
hex_digit d = if ltb d 10 then b'0' + d else b'a' + (d - 10)

-- `{:016x}`: the low `n` hexadecimal digits, most significant first.
unfoldable pub hex : ℕ → ℕ → Text
hex zero v = []
hex (suc n) v = hex n (v / 16) ++ hex_digit (v % 16) ∷ []

pub record PolicySnapshot : Type 0 where
  pub policy : Policy
  pub etag : Text

pub data PolicyReplaceError : Type 0 where
  etag_mismatch : Text → Text → PolicyReplaceError
  invalid : PolicyValidationError → PolicyReplaceError

pub data Replaced : Type 0 where
  installed : PolicySnapshot → Replaced
  refused : PolicyReplaceError → Replaced

-- The store, and the process-wide counter behind `next_nonce`.
pub record PolicyStore : Type 0 where
  pub snapshot : PolicySnapshot
  pub counter : ℕ

-- `fetch_add` returns the old value and wraps.
unfoldable pub next_nonce : ℕ → ℕ × ℕ
next_nonce counter = (counter, (counter + 1) % u64_mod)

-- `to_vec` is the JSON serialiser.
module _ (to_vec : Policy → List ℕ) where
  unfoldable pub etag_for : Policy → ℕ → Text
  unfolding fnv1a64 hex
  etag_for policy nonce =
      b'"' ∷ hex 16 (bit_xor (fnv1a64 (to_vec policy)) ((nonce * fnv_prime) % u64_mod)) ++ b'"' ∷ []

  unfoldable pub new_store : Policy → ℕ → PolicyStore
  unfolding etag_for
  new_store policy counter = record {
    snapshot = record { policy = policy; etag = etag_for policy 0 };
    counter = counter;
  }

  install : PolicyStore → Policy → PolicyStore × Replaced
  unfolding etag_for next_nonce
  install store new_policy =
      let (nonce, counter) = next_nonce store.counter in
      let snapshot : PolicySnapshot = record {
        policy = new_policy;
        etag = etag_for new_policy nonce;
      } in
      (record { snapshot = snapshot; counter = counter }, installed snapshot)

  unfoldable pub replace : PolicyStore → Text → Policy → PolicyStore × Replaced
  unfolding validate install
  replace store if_match new_policy = elim (validate new_policy) [
    | some e ↦ (store, refused (invalid e))
    | none ↦
        if store.snapshot.etag == if_match
        then install store new_policy
        else (store, refused (etag_mismatch store.snapshot.etag if_match))
  ]
