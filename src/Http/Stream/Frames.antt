-- ===== src/Http/Stream/Frames.antt =====
-- What a viewer's frames tell it, and that they follow the policy.
use mathlib.Core.List.Memᴰ
use tabbify_service_mesh.Roster.{
  PeerInfo, PeerEvent, added, updated, removed, hole_punch, relay_wake, Coordinator,
}
use tabbify_service_mesh.Http.Stream.{
  ViewerFilter, set_insert, set_remove, apply_info, apply, apply_all,
}
use tabbify_service_mesh.Formats.{Formats}
use tabbify_service_mesh.Allocator.{addr_eq}
use tabbify_service_mesh.Roster.Filter.{viewer_can_see}
use tabbify_service_mesh.Shared.{
  if◌then◌else◌, Bool-cases, ◌==◌, nat_eq, eq_refl, list_beq_iff, list_eq, option_eq, pair_eq, Text,
  any, contains, contains-select, ◌≡◌, refl, sym, ap, subst, ◌∙◌, ◌≢◌, inl, inr, Bool, true, false,
  not, ◌&&◌, ◌||◌, Option, none, some, List, [], ◌∷◌, map, Memᴰ, arith,
}

contains-set_insert :
    (x y : Text) (set : List Text) → contains (set_insert x set) y ≡ ((x == y) || contains set y)
contains-set_insert x y set = elim (Bool-cases (contains set x)) [
  | inl there ↦ rw there (ground (arith, list_beq_iff x y))
  | inr new ↦ rw new refl
]

contains-set_remove :
    (x y : Text) (set : List Text)
    → contains (set_remove x set) y ≡ (not (x == y) && contains set y)
contains-set_remove x y set =
    ground (arith, contains-select (λ z. not (z == x)) set y, list_beq_iff x y, list_beq_iff y x)

-- What a viewer holds to be there after a frame, given what it held before.
abbrev pub shown : Option PeerEvent → Text → Bool → Bool
shown none id before = before
shown (some (added info)) id before = (info.peer_id == id) || before
shown (some (updated info)) id before = before
shown (some (removed peer_id tags)) id before = not (peer_id == id) && before
shown (some (hole_punch hp)) id before = before
shown (some (relay_wake wake)) id before = before

abbrev pub UniqueIds : List PeerInfo → Type 0
UniqueIds [] = Unit {0}
UniqueIds (x ∷ xs) = (any (λ i. i.peer_id == x.peer_id) xs ≡ false) × UniqueIds xs

module _ (fmt : Formats) {Sender : Type 0} where
  -- What may be sent: news of a permitted peer, added once and updated after that; a removal of a
  -- shown peer; an instruction for the viewer itself.
  abbrev pub Legal : Coordinator Sender → ViewerFilter → Option PeerEvent → Type 0
  Legal c f none = Unit {0}
  Legal c f (some (added info)) =
      (contains f.revealed info.peer_id ≡ false)
      × (viewer_can_see c f.viewer_tags info.tags ≡ true)
      × (info.peer_id ≢ fmt.print_uuid f.viewer_id)
  Legal c f (some (updated info)) =
      (contains f.revealed info.peer_id ≡ true)
      × (viewer_can_see c f.viewer_tags info.tags ≡ true)
      × (info.peer_id ≢ fmt.print_uuid f.viewer_id)
  Legal c f (some (removed peer_id tags)) = contains f.revealed peer_id ≡ true
  Legal c f (some (hole_punch hp)) = hp.initiator_peer_id ≡ f.viewer_id
  Legal c f (some (relay_wake wake)) = wake.recipient_peer_id ≡ fmt.print_uuid f.viewer_id

  abbrev Sound : Coordinator Sender → ViewerFilter → Text → ViewerFilter × Option PeerEvent → Type 0
  Sound c f id (f', frame) =
      (contains f'.revealed id ≡ shown frame id (contains f.revealed id)) × Legal c f frame

  apply_info-Sound :
      (c : Coordinator Sender) (f : ViewerFilter) (info : PeerInfo) (id : Text)
      → Sound c f id (apply_info fmt c f info)
  unfolding apply_info
  apply_info-Sound c f info id = elim (Bool-cases (info.peer_id == fmt.print_uuid f.viewer_id)) [
    | inl own ↦ rw (apply_info, own) (refl, tt)
    | inr other ↦
        let apart : info.peer_id ≢ fmt.print_uuid f.viewer_id =
          λ s. ground (arith, list_beq_iff info.peer_id (fmt.print_uuid f.viewer_id)) in
        elim (Bool-cases (viewer_can_see c f.viewer_tags info.tags)) [
          | inl sees ↦ elim (Bool-cases (contains f.revealed info.peer_id)) [
            | inl old ↦ rw (apply_info, other, sees, old) (refl, (old, sees, apart))
            | inr new ↦ rw (apply_info, other, sees, new) (refl, (new, sees, apart))
          ]
          | inr hidden ↦ elim (Bool-cases (contains f.revealed info.peer_id)) [
            | inl old ↦
                rw (apply_info, other, hidden, old)
                  (contains-set_remove info.peer_id id f.revealed, old)
            | inr new ↦ rw (apply_info, other, hidden, new) (refl, tt)
          ]
        ]
  ]

  -- The set of revealed peers is exactly what the frames sent so far tell the viewer, and every frame
  -- is in order: a peer is added only when it is not shown, updated or removed only when it is, news
  -- of a peer pass only when the current policy lets the viewer see it and it is not the viewer, and a
  -- punch or a wake reaches only the peer that it is for.
  pub apply-Sound :
      (c : Coordinator Sender) (f : ViewerFilter) (event : PeerEvent) (id : Text)
      → let (f', frame) = apply fmt c f event in
        (contains f'.revealed id ≡ shown frame id (contains f.revealed id)) × Legal c f frame
  unfolding apply
  apply-Sound c f (added info) id = apply_info-Sound c f info id
  apply-Sound c f (updated info) id = apply_info-Sound c f info id
  apply-Sound c f (removed peer_id tags) id = elim (Bool-cases (contains f.revealed peer_id)) [
    | inl old ↦ rw (apply, old) (contains-set_remove peer_id id f.revealed, old)
    | inr new ↦ rw (apply, new) (refl, tt)
  ]
  apply-Sound c f (hole_punch hp) id = elim (Bool-cases (hp.initiator_peer_id == f.viewer_id)) [
    | inl mine ↦ rw (apply, mine) (refl, ground arith)
    | inr not_mine ↦ rw (apply, not_mine) (refl, tt)
  ]
  apply-Sound c f (relay_wake wake) id =
      elim (Bool-cases (wake.recipient_peer_id == fmt.print_uuid f.viewer_id)) [
        | inl mine ↦
            rw (apply, mine)
              (refl, (list_beq_iff wake.recipient_peer_id (fmt.print_uuid f.viewer_id)).0 mine)
        | inr not_mine ↦ rw (apply, not_mine) (refl, tt)
      ]

  -- The parts of the filter that never change, and the effect of an update on what is revealed.
  abbrev Decides : Coordinator Sender → ViewerFilter → PeerInfo → ViewerFilter → Type 0
  Decides c f info f' =
      (f'.viewer_id ≡ f.viewer_id)
      × (f'.viewer_tags ≡ f.viewer_tags)
      × ((id : Text)
          → contains f'.revealed id ≡ (
              if (info.peer_id == id) && not (info.peer_id == fmt.print_uuid f.viewer_id)
              then viewer_can_see c f.viewer_tags info.tags
              else contains f.revealed id))

  apply_info-Decides :
      (c : Coordinator Sender) (f : ViewerFilter) (info : PeerInfo)
      → Decides c f info (apply_info fmt c f info).0
  unfolding apply_info
  apply_info-Decides c f info = (
    ground arith,
    ground arith,
    λ id. ground (
      arith,
      contains-set_insert info.peer_id id f.revealed,
      contains-set_remove info.peer_id id f.revealed,
      list_beq_iff info.peer_id id,
    ),
  )

  apply_all-others :
      (c : Coordinator Sender) (f : ViewerFilter) (infos : List PeerInfo) (id : Text)
      → any (λ i. i.peer_id == id) infos ≡ false
      → contains (apply_all fmt c f (map updated infos)).revealed id ≡ contains f.revealed id
  unfolding apply_all apply
  apply_all-others c f [] id none_here = refl
  apply_all-others c f (x ∷ xs) id none_here =
      let (own, tags, decides) = apply_info-Decides c f x in
      ground (arith, decides id, apply_all-others c (apply_info fmt c f x).0 xs id)

  -- After the broadcast that follows a policy change (an update of every peer, the ids distinct), each
  -- peer of it other than the viewer is revealed exactly when the policy lets the viewer see it.
  pub apply_all-converges :
      (c : Coordinator Sender) (f : ViewerFilter) (infos : List PeerInfo) (info : PeerInfo)
      → UniqueIds infos
      → Memᴰ info infos
      → info.peer_id ≢ fmt.print_uuid f.viewer_id
      → contains (apply_all fmt c f (map updated infos)).revealed info.peer_id
        ≡ viewer_can_see c f.viewer_tags info.tags
  unfolding apply_all apply
  apply_all-converges c f [] info u m other = absurd (Memᴰ.not-nil m)
  apply_all-converges c f (x ∷ xs) info (fresh, u) (Memᴰ.head e) other =
      let (own, tags, decides) = apply_info-Decides c f x in
      let away : (x.peer_id == fmt.print_uuid f.viewer_id) ≡ false =
        ground
          (arith, list_beq_iff x.peer_id (fmt.print_uuid f.viewer_id), ap (λ z. z.peer_id) e) in
      let head_case : contains (apply_all fmt c (apply_info fmt c f x).0 (map updated xs)).revealed
            x.peer_id
          ≡ viewer_can_see c f.viewer_tags x.tags =
        apply_all-others c (apply_info fmt c f x).0 xs x.peer_id fresh
        ∙ decides x.peer_id
        ∙ rw (eq_refl x.peer_id, away) refl in
      subst
        (λ z.
          contains (apply_all fmt c (apply_info fmt c f x).0 (map updated xs)).revealed z.peer_id
          ≡ viewer_can_see c f.viewer_tags z.tags)
        (sym e) head_case
  apply_all-converges c f (x ∷ xs) info (fresh, u) (Memᴰ.tail m) other =
      let (own, tags, decides) = apply_info-Decides c f x in
      let rest =
        apply_all-converges c (apply_info fmt c f x).0 xs info u m (λ s. other (rw (← own) s)) in
      rest ∙ ap (λ t. viewer_can_see c t info.tags) tags
