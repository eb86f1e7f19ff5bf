-- ===== src/Relay/Frame.antt =====
-- crates/mesh-coordinator/src/relay/frame.rs: a public key of 32 bytes, then the payload.
use tabbify_service_mesh.Shared.{
  ltb, if◌then◌else◌, Bool-cases, nat_eq, list_eq, option_eq, pair_eq, length, take, drop, is_empty,
  length-append, ℕ, zero, suc, ◌≤◌, ◌<◌, ◌≡◌, refl, ap, ◌≢◌, inl, inr, Option, none, some, List, [],
  ◌∷◌, ◌++◌, arith,
}

unfoldable pub encode_relay_frame : List ℕ → List ℕ → List ℕ
encode_relay_frame peer_pubkey payload = peer_pubkey ++ payload

unfoldable pub decode_relay_frame : List ℕ → Option (List ℕ × List ℕ)
decode_relay_frame buf = if ltb (length buf) 33 then none else some (take 32 buf, drop 32 buf)

take_append : (n : ℕ) (xs ys : List ℕ) → length xs ≡ n → take n (xs ++ ys) ≡ xs
take_append zero [] ys e = refl
take_append zero (x ∷ xs) ys e = absurd (omega arith)
take_append (suc n) [] ys e = absurd (omega arith)
take_append (suc n) (x ∷ xs) ys e = ap (λ t. x ∷ t) (take_append n xs ys (omega arith))

drop_append : (n : ℕ) (xs ys : List ℕ) → length xs ≡ n → drop n (xs ++ ys) ≡ ys
drop_append zero [] ys e = refl
drop_append zero (x ∷ xs) ys e = absurd (omega arith)
drop_append (suc n) [] ys e = absurd (omega arith)
drop_append (suc n) (x ∷ xs) ys e = drop_append n xs ys (omega arith)

take-drop : (n : ℕ) (xs : List ℕ) → take n xs ++ drop n xs ≡ xs
take-drop zero xs = refl
take-drop (suc n) [] = refl
take-drop (suc n) (x ∷ xs) = ap (λ t. x ∷ t) (take-drop n xs)

length-take : (n : ℕ) (xs : List ℕ) → n ≤ length xs → length (take n xs) ≡ n
length-take zero xs h = refl
length-take (suc n) [] h = absurd (omega arith)
length-take (suc n) (x ∷ xs) h = omega (arith, length-take n xs)

length-drop : (n : ℕ) (xs : List ℕ) → n < length xs → drop n xs ≢ []
length-drop zero [] h e = omega arith
length-drop zero (x ∷ xs) h e = cc
length-drop (suc n) [] h e = omega arith
length-drop (suc n) (x ∷ xs) h e = length-drop n xs (omega arith) e

-- A frame with a key of 32 bytes and a non-empty payload decodes to both; an empty payload does not.
pub decode-encode_relay_frame :
    (pk payload : List ℕ)
    → length pk ≡ 32
    → decode_relay_frame (encode_relay_frame pk payload)
      ≡ (if is_empty payload then none else some (pk, payload))
unfolding decode_relay_frame encode_relay_frame
decode-encode_relay_frame pk [] e = let n = length-append pk [] in ground (arith)
decode-encode_relay_frame pk (b ∷ bs) e =
    let n = length-append pk (b ∷ bs) in
    ground (arith, take_append 32 pk (b ∷ bs) e, drop_append 32 pk (b ∷ bs) e)

-- Whatever decodes is a key of 32 bytes and a non-empty payload, and encoding them gives the frame
-- back.
pub encode-decode_relay_frame :
    (buf pk payload : List ℕ)
    → decode_relay_frame buf ≡ some (pk, payload)
    → (encode_relay_frame pk payload ≡ buf) × (length pk ≡ 32) × (payload ≢ [])
unfolding decode_relay_frame encode_relay_frame
encode-decode_relay_frame buf pk payload e = elim (Bool-cases (ltb (length buf) 33)) [
  | inl short ↦ absurd (ground arith)
  | inr long ↦
      let pk_eq : take 32 buf ≡ pk = ground arith in
      let payload_eq : drop 32 buf ≡ payload = ground arith in
      (
        rw (← pk_eq, ← payload_eq) (take-drop 32 buf),
        rw (← pk_eq) (length-take 32 buf (ground arith)),
        rw (← payload_eq) (length-drop 32 buf (ground arith)),
      )
]
