-- ===== src/Hash.antt =====
-- The 64-bit `FNV-1a` hash, of which roster/allocator.rs and policy/store.rs
-- (crates/mesh-coordinator/src) hold one copy each.
use Prim.Native.Nat.{bit_xor}
use tabbify_service_mesh.Shared.{
  nat_eq, list_eq, option_eq, pair_eq, ℕ, ◌*◌, ◌%◌, ◌^◌, ◌<◌, List, [], ◌∷◌, arith,
}

abbrev pub fnv_offset : ℕ
fnv_offset = 0xcbf29ce484222325

abbrev pub fnv_prime : ℕ
fnv_prime = 0x100000001b3

abbrev pub u64_mod : ℕ
u64_mod = 2 ^ 64

-- The loop of `fnv1a64`.
unfoldable pub fnv_loop : ℕ → List ℕ → ℕ
fnv_loop hash [] = hash
fnv_loop hash (b ∷ bs) = fnv_loop ((bit_xor hash b * fnv_prime) % u64_mod) bs

unfoldable pub fnv1a64 : List ℕ → ℕ
unfolding fnv_loop
fnv1a64 bs = fnv_loop fnv_offset bs

fnv_loop-lt : (hash : ℕ) (bs : List ℕ) → hash < u64_mod → fnv_loop hash bs < u64_mod
unfolding fnv_loop
fnv_loop-lt hash [] h = h
fnv_loop-lt hash (b ∷ bs) h = fnv_loop-lt ((bit_xor hash b * fnv_prime) % u64_mod) bs (omega arith)

pub fnv1a64-lt : (bs : List ℕ) → fnv1a64 bs < u64_mod
unfolding fnv1a64
fnv1a64-lt bs = fnv_loop-lt fnv_offset bs (omega arith)
