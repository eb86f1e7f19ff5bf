-- ===== src/Policy/Store/Etag.antt =====
-- The `ETag`s of policy/store.rs: a new nonce gives a new tag.
use Prim.Native.Nat.{bit_xor}
use native.Mathlib.Nat.{pow-suc}
use tabbify_service_mesh.Hash.{fnv_prime, u64_mod, fnv1a64, fnv1a64-lt}
use tabbify_service_mesh.Shared.{
  nat_eq, list_eq, option_eq, pair_eq, Text, ℕ, zero, suc, ◌*◌, ◌/◌, ◌%◌, ◌^◌, ◌<◌, ◌≡◌, ◌≢◌, List,
  [], ◌∷◌, ◌++◌, arith,
}
use tabbify_service_mesh.Shared.Bits.{bit_xor_cancel, bit_xor_bound}
use tabbify_service_mesh.Policy.{Policy}
use tabbify_service_mesh.Policy.Store.{hex_digit, hex, etag_for}

nonce_mix :
    (n m : ℕ)
    → n < u64_mod
    → m < u64_mod
    → (n * fnv_prime) % u64_mod ≡ (m * fnv_prime) % u64_mod
    → n ≡ m
nonce_mix n m p q e = omega arith

hex_digit_inj : (c d : ℕ) → c < 16 → d < 16 → hex_digit c ≡ hex_digit d → c ≡ d
hex_digit_inj c d p q e = ground arith

snoc_inj : {a b : ℕ} (xs ys : Text) → xs ++ a ∷ [] ≡ ys ++ b ∷ [] → (xs ≡ ys) × (a ≡ b)
snoc_inj [] [] e = ground arith
snoc_inj [] (y ∷ []) e = absurd (ground arith)
snoc_inj [] (y ∷ z ∷ ys) e = absurd (ground arith)
snoc_inj (x ∷ []) [] e = absurd (ground arith)
snoc_inj (x ∷ w ∷ xs) [] e = absurd (ground arith)
snoc_inj {a} {b} (x ∷ xs) (y ∷ ys) e = ground (arith, snoc_inj {a = a} {b = b} xs ys)

hex_inj : (n v w : ℕ) → v < 16 ^ n → w < 16 ^ n → hex n v ≡ hex n w → v ≡ w
unfolding hex
hex_inj zero v w p q e = omega arith
hex_inj (suc n) v w p q e =
    let pow = pow-suc 16 n in
    let (rest, last) = snoc_inj (hex n (v / 16)) (hex n (w / 16)) e in
    let high = hex_inj n (v / 16) (w / 16) (omega arith) (omega arith) rest in
    let low = hex_digit_inj (v % 16) (w % 16) (omega arith) (omega arith) last in omega arith

-- The same content under two nonces never has the same tag: replacing a policy by itself still
-- moves the `ETag`.
pub etag_for-ne :
    (to_vec : Policy → List ℕ) (policy : Policy) (n m : ℕ)
    → n < u64_mod
    → m < u64_mod
    → n ≢ m
    → etag_for to_vec policy n ≢ etag_for to_vec policy m
unfolding etag_for
etag_for-ne to_vec policy n m p q ne e = ne (nonce_mix n m p q (bit_xor_cancel h x y same))
  where
    h : ℕ
    h = fnv1a64 (to_vec policy)

    x : ℕ
    x = (n * fnv_prime) % u64_mod

    y : ℕ
    y = (m * fnv_prime) % u64_mod

    unquoted : hex 16 (bit_xor h x) ++ b'"' ∷ [] ≡ hex 16 (bit_xor h y) ++ b'"' ∷ []
    unquoted = ground arith

    same : bit_xor h x ≡ bit_xor h y
    same =
        hex_inj 16 _ _ (bit_xor_bound 64 h x (fnv1a64-lt (to_vec policy)) (omega arith))
          (bit_xor_bound 64 h y (fnv1a64-lt (to_vec policy)) (omega arith))
          (snoc_inj _ _ unquoted).0
