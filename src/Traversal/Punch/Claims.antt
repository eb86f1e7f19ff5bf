-- ===== src/Traversal/Punch/Claims.antt =====
-- What the tracker of nat/holepunch.rs records: emission and its cooldown, removal, reaping.
use tabbify_service_mesh.Shared.{
  if◌then◌else◌, Option-cases, nat_eq, list_eq, option_eq, pair_beq_iff, pair_eq, lookup,
  lookup-insert, lookup-retain_keys, Distinct, kept, lookup-retain, ℤ, pos, leb_ℤ, ℕ, ◌+◌, ◌≤◌, ◌<◌,
  ◌≡◌, refl, ◌∙◌, ◌≢◌, ◌⊎◌, inl, inr, true, false, not, Option, none, some, List, [], ◌∷◌, arith,
}
use tabbify_service_mesh.Traversal.Punch.{
  PunchPair, canonical_pair, involves, PunchPeer, PunchState, PunchTracker, take_cold_start_token,
  saturating_suc, claim, remove_peer, reap_older_than, directive, try_emit_pair,
}
use tabbify_service_mesh.Traversal.Punch.Backoff.{backoff, reemit_cooldown-backoff}

pub canonical_pair_comm : (a b : ℕ) → canonical_pair a b ≡ canonical_pair b a
unfolding canonical_pair
canonical_pair_comm a b = ground arith

-- A claim touches the record of its own pair alone.
pub lookup-claim_ne :
    (t : PunchTracker) (pair other : PunchPair) (now : ℕ)
    → pair ≢ other
    → lookup other (claim t pair now).0.pairs ≡ lookup other t.pairs
unfolding claim take_cold_start_token
lookup-claim_ne t pair other now ne =
    let same = pair_beq_iff pair other in
    elim (Option-cases (lookup pair t.pairs)) [
      | inl e ↦ ground (
        arith,
        e,
        same,
        lookup-insert pair other (record { last_emit = now; streak = 0 }) t.pairs,
      )
      | inr (st, e) ↦ ground (
        arith,
        e,
        same,
        lookup-insert pair other (record { last_emit = now; streak = saturating_suc st.streak })
            t.pairs,
      )
    ]

-- The streak that a successful claim leaves behind.
abbrev pub next_streak : Option PunchState → ℕ
next_streak none = 0
next_streak (some st) = saturating_suc st.streak

pub lookup-claim_self :
    (t : PunchTracker) (pair : PunchPair) (now : ℕ)
    → (claim t pair now).1 ≡ true
    → lookup pair (claim t pair now).0.pairs
      ≡ some (record { last_emit = now; streak = next_streak (lookup pair t.pairs) })
unfolding claim take_cold_start_token
lookup-claim_self t pair now h =
    let same = pair_beq_iff pair pair in
    elim (Option-cases (lookup pair t.pairs)) [
      | inl e ↦
          ground (
            arith,
            e,
            same,
            lookup-insert pair pair (record { last_emit = now; streak = 0 }) t.pairs,
          )
      | inr (st, e) ↦ ground (
        arith,
        e,
        same,
        lookup-insert pair pair (record { last_emit = now; streak = saturating_suc st.streak })
            t.pairs,
      )
    ]

-- A run of claims for other pairs, whatever comes of them.
unfoldable pub claim_all : PunchTracker → List (PunchPair × ℕ) → PunchTracker
claim_all t [] = t
claim_all t ((pair, now) ∷ rest) = claim_all (claim t pair now).0 rest

abbrev pub Others : PunchPair → List (PunchPair × ℕ) → Type 0
Others pair [] = Unit {0}
Others pair ((other, now) ∷ rest) = (other ≢ pair) × Others pair rest

lookup-claim_all :
    (t : PunchTracker) (pair : PunchPair) (rest : List (PunchPair × ℕ))
    → Others pair rest
    → lookup pair (claim_all t rest).pairs ≡ lookup pair t.pairs
unfolding claim_all
lookup-claim_all t pair [] o = refl
lookup-claim_all t pair ((other, now) ∷ rest) o =
    lookup-claim_all (claim t other now).0 pair rest o.1 ∙ lookup-claim_ne t other pair now o.0

claim_tracked-waits :
    (t : PunchTracker) (pair : PunchPair) (st : PunchState) (now : ℕ)
    → lookup pair t.pairs ≡ some st
    → st.streak < 40
    → (claim t pair now).1 ≡ true
    → st.last_emit + backoff st.streak ≤ now
unfolding claim
claim_tracked-waits t pair st now e small h =
    ground (arith, e, reemit_cooldown-backoff st.streak small)

-- Between two punches of one pair with no confirmation in between lies at least the backoff of the
-- streak reached, as long as the streak is below 40, whatever other pairs claim meanwhile.
pub claim-claim :
    (t : PunchTracker) (pair : PunchPair) (before now : ℕ) (others : List (PunchPair × ℕ))
    → (claim t pair before).1 ≡ true
    → Others pair others
    → next_streak (lookup pair t.pairs) < 40
    → (claim (claim_all (claim t pair before).0 others) pair now).1 ≡ true
    → before + backoff (next_streak (lookup pair t.pairs)) ≤ now
claim-claim t pair before now others first o small second =
    claim_tracked-waits (claim_all (claim t pair before).0 others) pair
      (record { last_emit = before; streak = next_streak (lookup pair t.pairs) }) now
      (lookup-claim_all _ pair others o ∙ lookup-claim_self t pair before first) small second

-- A departed peer leaves no pair behind, and no pair without it is touched.
pub lookup-remove_peer :
    (t : PunchTracker) (peer_id : ℕ) (pair : PunchPair)
    → lookup pair (remove_peer t peer_id).0.pairs
      ≡ (if involves peer_id pair then none else lookup pair t.pairs)
unfolding remove_peer
lookup-remove_peer t peer_id pair =
    ground (arith, lookup-retain_keys (λ p. not (involves peer_id p)) pair t.pairs)

-- Reaping drops exactly the pairs whose last emission lies before the cutoff.
pub lookup-reap_older_than :
    (t : PunchTracker) (cutoff : ℤ) (pair : PunchPair)
    → Distinct t.pairs
    → lookup pair (reap_older_than t cutoff).0.pairs
      ≡ kept (λ _ st. leb_ℤ cutoff (pos st.last_emit)) pair (lookup pair t.pairs)
unfolding reap_older_than
lookup-reap_older_than t cutoff pair d = lookup-retain _ pair t.pairs d

-- An emitted pair consists of two directives, one for each side, each naming the other side's dial
-- endpoint; the sides differ and both have an endpoint. Otherwise nothing is sent.
pub try_emit_pair-directives :
    (t : PunchTracker) (a b : PunchPeer) (now : ℕ)
    → let out = try_emit_pair t a b now in
      ((out.2 ≡ true)
        × (out.1 ≡ directive a b now ∷ directive b a now ∷ [])
        × (a.peer_id ≢ b.peer_id)
        × (a.dial_endpoint ≢ [])
        × (b.dial_endpoint ≢ [])
        × ((claim t (canonical_pair a.peer_id b.peer_id) now).1 ≡ true))
      ⊎ ((out.2 ≡ false) × (out.1 ≡ []))
unfolding try_emit_pair
try_emit_pair-directives t a b now = ground arith
