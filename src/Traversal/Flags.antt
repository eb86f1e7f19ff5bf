-- ===== src/Traversal/Flags.antt =====
-- crates/mesh-coordinator/src/nat/direct_flags.rs: the per-pair overrides, direct and relay pin.
use tabbify_service_mesh.Shared.{
  if◌then◌else◌, get_or, ◌==◌, nat_eq, list_eq, option_eq, pair_eq, Dict, retain, lookup, insert,
  remove, lookup-insert, lookup-remove, lookup-retain_keys, ℕ, ◌≡◌, refl, Bool, true, false, not,
  ◌&&◌, ◌||◌, [], arith,
}
use tabbify_service_mesh.Traversal.Punch.{PunchPair, canonical_pair, involves}

pub record DirectPairFlags : Type 0 where
  pub direct : Dict PunchPair Bool
  pub pinned_to_relay : Dict PunchPair Bool

unfoldable pub new_flags : DirectPairFlags
new_flags = record { direct = []; pinned_to_relay = [] }

abbrev pub flag_on : Dict PunchPair Bool → ℕ → ℕ → Bool
flag_on m a b = get_or (lookup (canonical_pair a b) m) false

abbrev set_flag : Dict PunchPair Bool → ℕ → ℕ → Bool → Dict PunchPair Bool
set_flag m a b on = if on then insert (canonical_pair a b) true m else remove (canonical_pair a b) m

abbrev drop_flags : Dict PunchPair Bool → ℕ → Dict PunchPair Bool
drop_flags m peer_id = retain (λ pair _. not (involves peer_id pair)) m

unfoldable pub is_direct : DirectPairFlags → ℕ → ℕ → Bool
is_direct f a b = flag_on f.direct a b

unfoldable pub set_direct : DirectPairFlags → ℕ → ℕ → Bool → DirectPairFlags
set_direct f a b on = record f { direct = set_flag f.direct a b on }

unfoldable pub is_pinned_to_relay : DirectPairFlags → ℕ → ℕ → Bool
is_pinned_to_relay f a b = flag_on f.pinned_to_relay a b

unfoldable pub set_pinned_to_relay : DirectPairFlags → ℕ → ℕ → Bool → DirectPairFlags
set_pinned_to_relay f a b on = record f { pinned_to_relay = set_flag f.pinned_to_relay a b on }

unfoldable pub remove_flags : DirectPairFlags → ℕ → DirectPairFlags
remove_flags f peer_id = record {
  direct = drop_flags f.direct peer_id;
  pinned_to_relay = drop_flags f.pinned_to_relay peer_id;
}

-- Two pairs of ids that name the same unordered pair.
abbrev pub same_pair : ℕ → ℕ → ℕ → ℕ → Bool
same_pair a b c d = ((a == c) && (b == d)) || ((a == d) && (b == c))

canonical_pair_same : (a b c d : ℕ) → (canonical_pair a b == canonical_pair c d) ≡ same_pair a b c d
unfolding canonical_pair
canonical_pair_same a b c d = ground arith

involves-canonical_pair : (p a b : ℕ) → involves p (canonical_pair a b) ≡ ((a == p) || (b == p))
unfolding canonical_pair
involves-canonical_pair p a b = ground arith

-- Setting a flag sets it for that pair in either order and for no other pair, and leaves the other
-- kind of override alone.
pub set_direct_reads :
    (f : DirectPairFlags) (a b c d : ℕ) (on : Bool)
    → (is_direct (set_direct f a b on) c d ≡ (if same_pair a b c d then on else is_direct f c d))
      × (is_pinned_to_relay (set_direct f a b on) c d ≡ is_pinned_to_relay f c d)
      × (is_pinned_to_relay (set_pinned_to_relay f a b on) c d
          ≡ (if same_pair a b c d then on else is_pinned_to_relay f c d))
      × (is_direct (set_pinned_to_relay f a b on) c d ≡ is_direct f c d)
unfolding is_direct set_direct is_pinned_to_relay set_pinned_to_relay
set_direct_reads f a b c d true = (
  rw (lookup-insert, canonical_pair_same) (ground arith),
  refl,
  rw (lookup-insert, canonical_pair_same) (ground arith),
  refl,
)
set_direct_reads f a b c d false = (
  rw (lookup-remove, canonical_pair_same) (ground arith),
  refl,
  rw (lookup-remove, canonical_pair_same) (ground arith),
  refl,
)

-- Removing a peer clears both flags of every pair that it is an end of, and no other pair's.
pub remove_flags_reads :
    (f : DirectPairFlags) (p a b : ℕ)
    → (is_direct (remove_flags f p) a b ≡ (if (a == p) || (b == p) then false else is_direct f a b))
      × (is_pinned_to_relay (remove_flags f p) a b
          ≡ (if (a == p) || (b == p) then false else is_pinned_to_relay f a b))
unfolding is_direct is_pinned_to_relay remove_flags
remove_flags_reads f p a b =
    let i = involves-canonical_pair p a b in
    let direct = lookup-retain_keys (λ q. not (involves p q)) (canonical_pair a b) f.direct in
    let pinned =
      lookup-retain_keys (λ q. not (involves p q)) (canonical_pair a b) f.pinned_to_relay in
    (ground (arith, i, direct), ground (arith, i, pinned))
