-- ===== src/Joiner/Sessions/Liveness.antt =====
-- The node's own judgement of its data plane (crates/mesh-joiner/src/wg/session/table.rs) and the
-- probes that keep it honest.
use tabbify_service_mesh.Formats.{socket_eq}
use tabbify_service_mesh.Allocator.{addr_eq}
use tabbify_service_mesh.Joiner.Commands.Once.{after}
use tabbify_service_mesh.Joiner.Sessions.Clocks.{
  note_inbound_data_frame, note_send_attempt, dataplane_healthy, idle_probe_due,
  should_emit_idle_probe,
}
use tabbify_service_mesh.Joiner.Sessions.{
  add_allowed, SessionTable, tell, update_in_place, upsert_over, upsert,
}
use tabbify_service_mesh.Joiner.Peers.{PeerInfo, is_ephemeral_peer}
use tabbify_service_mesh.Shared.{
  ltb, leb, if◌then◌else◌, is_some, Bool-cases, ◌==◌, nat_eq, list_eq, option_eq, pair_eq, is_empty,
  append-nil, lookup, pos, sub_ℕ, leb_ℤ, ℕ, ◌+◌, ◌≤◌, ◌<◌, ◌≡◌, refl, sym, ap, ◌∙◌, inl, inr, Bool,
  true, false, not, ◌&&◌, Option, none, some, [], ◌∷◌, ◌++◌, arith,
}

-- A node reports its data plane unhealthy exactly when it has peers, sent something since it last
-- received, and has received nothing for the threshold. After a received frame it is healthy for that
-- long, whatever it sends in the meantime.
pub dataplane_healthy-silence :
    (t : SessionTable) (now threshold received sent later : ℕ)
    → t.last_inbound_data_frame_ts ≤ received
    → later < received + threshold
    → (dataplane_healthy t now threshold
        ≡ not (
            not (is_empty t.by_ula)
            && (ltb t.last_inbound_data_frame_ts t.last_send_attempt_ts
                && leb (t.last_inbound_data_frame_ts + threshold) now)))
      × (dataplane_healthy
            (note_send_attempt (note_inbound_data_frame t received) sent)
            later
            threshold
          ≡ true)
unfolding dataplane_healthy note_send_attempt note_inbound_data_frame
dataplane_healthy-silence t now threshold received sent later mono soon =
    (ground arith, ground arith)

-- Whether a probe is due, in closed form.
abbrev pub probe_due : SessionTable → (last_probe now after : ℕ) → Bool
probe_due t last_probe now after =
    not (is_empty t.by_ula)
    && (leb (t.last_inbound_data_frame_ts + after) now && leb (last_probe + after) now)

probed_at :
    (t : SessionTable) (now after : ℕ)
    → (should_emit_idle_probe t now after).1 ≡ probe_due t t.last_idle_probe_ts now after
unfolding should_emit_idle_probe idle_probe_due
probed_at t now after = ground arith

abbrev pick : (due old : Bool) → (claimed t : SessionTable) → SessionTable × Bool
pick due old claimed t = if not due then (t, false) else if old then (claimed, true) else (t, false)

pick_table :
    (due old : Bool) (claimed t : SessionTable)
    → (pick due old claimed t).0 ≡ (if (pick due old claimed t).1 then claimed else t)
pick_table true true claimed t = refl
pick_table true false claimed t = refl
pick_table false old claimed t = refl

claimed_table :
    (t : SessionTable) (now after : ℕ)
    → (should_emit_idle_probe t now after).0 ≡ (
        if (should_emit_idle_probe t now after).1 then record t { last_idle_probe_ts = now } else t)
unfolding should_emit_idle_probe
claimed_table t now after =
    pick_table (idle_probe_due now t.last_inbound_data_frame_ts (not (is_empty t.by_ula)) after)
      (leb_ℤ (pos after) (sub_ℕ now t.last_idle_probe_ts)) (record t { last_idle_probe_ts = now }) t

probed_table :
    (t : SessionTable) (now after : ℕ)
    → (should_emit_idle_probe t now after).0 ≡ (
        if probe_due t t.last_idle_probe_ts now after
        then record t { last_idle_probe_ts = now }
        else t)
probed_table t now after =
    claimed_table t now after
    ∙ ap (λ b. if b then record t { last_idle_probe_ts = now } else t) (probed_at t now after)

pub should_emit_idle_probe-heap :
    (t : SessionTable) (now after : ℕ) → (should_emit_idle_probe t now after).0.heap ≡ t.heap
should_emit_idle_probe-heap t now after =
    ap (λ (u : SessionTable). u.heap) (claimed_table t now after)
    ∙ same (should_emit_idle_probe t now after).1
  where
    same : (b : Bool) → (if b then record t { last_idle_probe_ts = now } else t).heap ≡ t.heap
    same true = refl
    same false = refl

again :
    (t : SessionTable) (now after later : ℕ) (b : Bool)
    → (should_emit_idle_probe
        (if b then record t { last_idle_probe_ts = now } else t)
        later
        after).1
      ≡ (if b then probe_due t now later after else probe_due t t.last_idle_probe_ts later after)
again t now after later true = probed_at (record t { last_idle_probe_ts = now }) later after
again t now after later false = probed_at t later after

-- An idle node probes at a fixed cadence: as soon as it has received nothing for the window and the
-- last probe is a window old, whatever it has sent in between, and never twice within a window.
pub should_emit_idle_probe-cadence :
    (t : SessionTable) (now after sent later : ℕ)
    → ((should_emit_idle_probe t now after).1 ≡ probe_due t t.last_idle_probe_ts now after)
      × ((should_emit_idle_probe (note_send_attempt t sent) now after).1
          ≡ (should_emit_idle_probe t now after).1)
      × ((should_emit_idle_probe (should_emit_idle_probe t now after).0 later after).1 ≡ (
          if probe_due t t.last_idle_probe_ts now after
          then probe_due t now later after
          else probe_due t t.last_idle_probe_ts later after))
unfolding note_send_attempt
should_emit_idle_probe-cadence t now after sent later = (
  probed_at t now after,
  probed_at (note_send_attempt t sent) now after ∙ sym (probed_at t now after),
  ap (λ u. (should_emit_idle_probe u later after).1) (probed_table t now after)
      ∙ again t now after later (probe_due t t.last_idle_probe_ts now after),
)

upsert_over-kicks :
    (o : Option ℕ) (t : SessionTable) (info : PeerInfo)
    → (upsert_over o t info).kicks
      ≡ t.kicks
        ++ (if not (is_some o) && (not (is_ephemeral_peer info.ula) && t.has_convergence_tx)
            then t.next ∷ []
            else [])
unfolding update_in_place
upsert_over-kicks none t info = kicked (not (is_ephemeral_peer info.ula) && t.has_convergence_tx)
  where
    kicked :
        (b : Bool)
        → (if b then t.kicks ++ t.next ∷ [] else t.kicks)
          ≡ t.kicks ++ (if b then t.next ∷ [] else [])
    kicked true = refl
    kicked false = sym (append-nil t.kicks)
upsert_over-kicks (some old) t info =
    elim (Bool-cases ((t.heap old).peer_pubkey == info.wg_public_key)) [
      | inl same ↦ rw (upsert_over, same) (sym (append-nil t.kicks))
      | inr rotated ↦ rw (upsert_over, rotated) (sym (append-nil t.kicks))
    ]

-- A peer is kicked to converge once, when it first appears, and only if it is no ephemeral one: a
-- later record for the same address, with the same key or a new one, kicks nobody.
pub upsert-kicks :
    (t : SessionTable) (info : PeerInfo)
    → (upsert t info).kicks
      ≡ t.kicks
        ++ (if not (is_some (lookup info.ula t.by_ula))
              && (not (is_ephemeral_peer info.ula) && t.has_convergence_tx)
            then t.next ∷ []
            else [])
unfolding upsert
upsert-kicks t info =
    upsert_over-kicks (lookup info.ula t.by_ula) (tell t (add_allowed info.ula)) info
