-- ===== src/Joiner/RelayClient/Failover.antt =====
-- The relays of crates/mesh-joiner/src/relay/client.rs and the walk over them.
use native.Mathlib.Nat.{mod-lt, mod-eq_of_lt, mod_self, mod-one, mod-add-mod, zero-mod}
use tabbify_service_mesh.Formats.{socket_eq}
use tabbify_service_mesh.Allocator.{addr_eq}
use tabbify_service_mesh.Joiner.Sync.View.{seen}
use tabbify_service_mesh.Joiner.RelayClient.{
  derive_relay_url, push_new, resolve_relay_urls, backoff_at, backoff, RelayState, usize_max,
  disconnected,
}
use tabbify_service_mesh.Shared.{
  ltb, if◌then◌else◌, Bool-cases, ◌==◌, nat_eq, list_beq_iff, list_eq, option_eq, pair_eq, Text,
  length, is_empty, contains, contains-append, ℕ, zero, suc, ◌+◌, ◌%◌, ◌≤◌, ◌<◌, min, ◌≡◌, refl,
  sym, ap, subst, ◌∙◌, ◌⊎◌, inl, inr, Bool, true, false, ◌||◌, none, List, [], ◌∷◌, ◌++◌, arith,
}

abbrev pub NoRepeat : List Text → Type 0
NoRepeat [] = Unit
NoRepeat (url ∷ urls) = (contains urls url ≡ false) × NoRepeat urls

same_test : (a b : Text) → (a == b) ≡ (b == a)
same_test a b = elim (Bool-cases (a == b)) [
  | inl same ↦ let e = (list_beq_iff a b).0 same in rw e refl
  | inr other ↦ elim (Bool-cases (b == a)) [
    | inl same ↦ let e = (list_beq_iff b a).0 same in rw e refl
    | inr differs ↦ other ∙ sym differs
  ]
]

NoRepeat-append :
    (out : List Text) (url : Text)
    → NoRepeat out
    → contains out url ≡ false
    → NoRepeat (out ++ url ∷ [])
NoRepeat-append [] url h new = (refl, tt)
NoRepeat-append (first ∷ out) url h new = (
  ground (arith, h.0, new, contains-append out (url ∷ []) first, same_test first url),
  NoRepeat-append out url h.1 (ground (arith, new)),
)

length-append_one : (out : List Text) (url : Text) → length out ≤ length (out ++ url ∷ [])
length-append_one [] url = omega arith
length-append_one (first ∷ out) url = omega (arith, length-append_one out url)

seen_again :
    (out urls : List Text) (first url : Text)
    → contains out first ≡ true
    → (contains out url || ((first == url) || contains urls url))
      ≡ (contains out url || contains urls url)
seen_again out urls first url seen = elim (Bool-cases (first == url)) [
  | inl same ↦
      let found = subst (λ u. contains out u ≡ true) ((list_beq_iff first url).0 same) seen in
      rw found refl
  | inr other ↦ rw other refl
]

push_new-exact :
    (out urls : List Text)
    → NoRepeat out
    → NoRepeat (push_new out urls)
      × (length out ≤ length (push_new out urls))
      × ((url : Text) → contains (push_new out urls) url ≡ (contains out url || contains urls url))
push_new-exact out [] h = (h, omega arith, λ url. ground arith)
push_new-exact out (first ∷ urls) h = elim (Bool-cases (contains out first)) [
  | inl seen ↦
      let later = push_new-exact out urls h in
      rw seen (later.0, later.1, λ url. later.2 url ∙ sym (seen_again out urls first url seen))
  | inr new ↦
      let later = push_new-exact (out ++ first ∷ []) urls (NoRepeat-append out first h new) in
      rw new (
        later.0,
        omega (arith, later.1, length-append_one out first),
        λ url. ground (arith, later.2 url, contains-append out (first ∷ []) url),
      )
]

-- The relays are those configured, each once, or the one derived from the coordinator's address if
-- none is; there is always one.
pub resolve_relay_urls-exact :
    (coordinator_url : Text) (configured : List Text) (url : Text)
    → (0 < length (resolve_relay_urls coordinator_url configured))
      × NoRepeat (resolve_relay_urls coordinator_url configured)
      × (contains (resolve_relay_urls coordinator_url configured) url ≡ (
          if is_empty configured
          then derive_relay_url coordinator_url none == url
          else contains configured url))
unfolding resolve_relay_urls
resolve_relay_urls-exact coordinator_url [] url = (omega arith, (refl, tt), ground arith)
resolve_relay_urls-exact coordinator_url (first ∷ urls) url =
    let all = push_new-exact (first ∷ []) urls (refl, tt) in
    (omega (arith, all.1), all.0, all.2 url ∙ ground arith)

-- The state after `n` disconnections.
abbrev pub walk : (count n : ℕ) → RelayState
walk count zero = record { current = 0; attempt = 0 }
walk count (suc n) = (disconnected count (walk count n)).1

wraps_or_moves :
    (count c : ℕ)
    → c < count
    → ((c + 1) % count ≡ c + 1) ⊎ ((c + 1 ≡ count) × ((c + 1) % count ≡ 0))
wraps_or_moves count c h = elim (Bool-cases (ltb (c + 1) count)) [
  | inl inside ↦ inl (mod-eq_of_lt (ground arith))
  | inr last ↦ let full : c + 1 ≡ count = ground arith in inr (full, rw full (mod_self count))
]

moves_on : (count c : ℕ) → c < count → 1 < count → ((c + 1) % count == c) ≡ false
moves_on count c h more = ground (arith, wraps_or_moves count c h)

-- One disconnection, when the state is as after `n`.
abbrev Walked : (count n : ℕ) → RelayState → Type 0
Walked count n s =
    (s.current ≡ n % count)
    × (s.current < count)
    × (s.attempt ≡ (if count == 1 then min n usize_max else 0))

disconnected-Walked :
    (count n : ℕ) (s : RelayState)
    → 0 < count
    → Walked count n s
    → Walked count (suc n) (disconnected count s).1
unfolding disconnected
disconnected-Walked count n s h w =
    let again : (n % count + 1) % count ≡ suc n % count =
      mod-add-mod n count 1 ∙ ap (λ m. m % count) (omega arith) in
    let next : (s.current + 1) % count ≡ suc n % count = ap (λ c. (c + 1) % count) w.0 ∙ again in
    elim (Bool-cases (count == 1)) [
      | inl one ↦
          let single : count ≡ 1 = ground (arith, one) in
          let first : (s.current + 1) % count ≡ 0 = rw single (mod-one (s.current + 1)) in
          let at : s.current ≡ 0 = omega (arith, single, w.1) in
          let stays : ((s.current + 1) % count == s.current) ≡ true = ground (arith, first, at) in
          let sent : (if count == 1 then min n usize_max else 0) ≡ min n usize_max = rw one refl in
          rw stays (omega (arith, at, first, next), w.1, rw one (omega (arith, w.2, sent)))
      | inr more ↦
          rw (moves_on count s.current w.1 (ground (arith, more)))
            (next, mod-lt (s.current + 1) h, rw more refl)
    ]

walk-Walked : (count n : ℕ) → 0 < count → Walked count n (walk count n)
walk-Walked count zero h = (sym (zero-mod count), h, ground arith)
walk-Walked count (suc n) h = disconnected-Walked count n (walk count n) h (walk-Walked count n h)

-- The seconds to wait after `n` disconnections before this one.
abbrev pub waiting : (n : ℕ) → ℕ
waiting n = if n == 0 then 1 else if n == 1 then 2 else if n == 2 then 5 else 10

backoff_lem : (n : ℕ) → backoff n ≡ waiting n
backoff_lem zero = refl
backoff_lem (suc zero) = refl
backoff_lem (suc (suc zero)) = refl
backoff_lem (suc (suc (suc n))) =
    let capped : min (suc (suc (suc n))) 3 ≡ 3 = omega arith in rw capped (ground arith)

backoff-min : (n : ℕ) → backoff (min n usize_max) ≡ backoff n
backoff-min n = ap backoff_at (omega arith)

-- The relays are tried in turn, for ever. With one relay the waiting times are 1, 2, 5 and then always
-- 10 seconds; with more it is one second each time, also when all of them are down. There is a relay.
pub disconnected-rotates :
    (count n : ℕ)
    → 0 < count
    → ((walk count n).current ≡ n % count)
      × ((walk count n).current < count)
      × ((disconnected count (walk count n)).0 ≡ (if count == 1 then waiting n else 1))
unfolding disconnected
disconnected-rotates count n h =
    let at = walk-Walked count n h in (at.0, at.1, ap backoff at.2 ∙ delay (count == 1))
  where
    delay : (b : Bool) → backoff (if b then min n usize_max else 0) ≡ (if b then waiting n else 1)
    delay true = backoff-min n ∙ backoff_lem n
    delay false = refl
