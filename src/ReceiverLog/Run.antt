-- ===== src/ReceiverLog/Run.antt =====
-- The receiver's log from a new file: a run of calls, each of which succeeds.
use ultra_net.Prelude.{
  ℕ, ◌+◌, ◌<◌, ◌^◌, ◌≡◌, refl, sym, Bool, true, false, List, [], ◌∷◌, ◌++◌, map, Option, none, some,
  arith, ◌==◌, if◌then◌else◌, Bytes, Bool-cases, inl, inr, All, IsByte, length, subst,
}
use ultra_net.Log.{Frame}
use ultra_net.Log.Frames.{log_bytes-nil}
use ultra_net.ReceiverLog.Index.{Key}
use ultra_net.ReceiverLog.State.{
  PendingRec, State, buffer_data, buffer_handled, set_enqueued, mark_executed, drop_key,
  take_for_actor,
}
use ultra_net.ReceiverLog.Flush.{
  magic, Write, frame_of, FlushResult, flush_ready, is_ready, commit_batch, commit_written,
  write_full, batch_bytes, swap_pending, committed, not_ok, commit_acks,
}
use ultra_net.ReceiverLog.Open.{started}
use ultra_net.ReceiverLog.Persist.{persist}
use ultra_net.ReceiverLog.Durable.{IsDurable, commit_written-IsDurable}

-- The records that a flush which succeeds adds to those in the file.
unfoldable pub flushed : State → List Frame → ℕ → List Frame
flushed s fs now =
    if length s.pending == 0
    then fs
    else if is_ready s now
    then fs ++ map frame_of s.pending
    else fs

commit_written-ok :
    (batch : List PendingRec) (synced : Bool) (s : State) (w : Bytes × Option Bool)
    (r : FlushResult)
    → (commit_written batch synced s w).1 ≡ some r
    → r.ok ≡ true
    → (w.1 ≡ some true)
      × ((commit_written batch synced s w).0 ≡ committed batch s w.0)
      × (r.acks ≡ commit_acks batch)
unfolding commit_written not_ok
commit_written-ok batch synced s (file, none) r e ok = absurd (cc e)
commit_written-ok batch synced s (file, some false) r e ok = absurd (ground (arith, e, ok))
commit_written-ok batch false s (file, some true) r e ok = absurd (ground (arith, e, ok))
commit_written-ok batch true s (file, some true) r e ok = (refl, refl, ground (arith, e))

commit_batch-IsDurable :
    (s : State) (fs : List Frame) (ws : List Write) (synced : Bool) (r : FlushResult)
    → IsDurable s fs
    → (commit_batch s.pending ws synced (swap_pending s)).1 ≡ some r
    → r.ok ≡ true
    → IsDurable (commit_batch s.pending ws synced (swap_pending s)).0 (fs ++ map frame_of s.pending)
unfolding commit_batch swap_pending not_ok
commit_batch-IsDurable s fs ws synced r v e ok = elim (Bool-cases s.fd_open) [
  | inr o ↦ absurd (ground (arith, o, e, ok))
  | inl t ↦
      let w = write_full ws s.file (batch_bytes s.pending) in
      let (whole, state, _) =
        commit_written-ok s.pending synced (swap_pending s) w r (ground (arith, t, e)) ok in
      subst (λ x. IsDurable x (fs ++ map frame_of s.pending)) (sym (ground (arith, t, state)))
        (commit_written-IsDurable s fs ws v whole)
]

-- A flush that returns with `ok` leaves the index as durable as it was.
pub flush_ready-IsDurable :
    (s : State) (fs : List Frame) (now : ℕ) (ws : List Write) (synced : Bool) (r : FlushResult)
    → IsDurable s fs
    → (flush_ready s now ws synced).1 ≡ some r
    → r.ok ≡ true
    → IsDurable (flush_ready s now ws synced).0 (flushed s fs now)
unfolding flush_ready flushed
flush_ready-IsDurable s fs now ws synced r v e ok = elim (Bool-cases (length s.pending == 0)) [
  | inl t ↦ rw t v
  | inr o ↦ elim (Bool-cases (is_ready s now)) [
    | inr u ↦ rw (o, u) v
    | inl t ↦ rw (o, t) (commit_batch-IsDurable s fs ws synced r v (ground (arith, o, t, e)) ok)
  ]
]

pub data Op : Type 0 where
  set_enqueued_op : Key → Bool → Op
  mark_executed_op drop_key_op : Key → Op
  buffer_data_op : ℕ → Key → Bytes → ℕ → Op
  buffer_handled_op : ℕ → Key → ℕ → Op
  take_for_actor_op : Bytes → Bytes → Op
  flush_ready_op : ℕ → List Write → Bool → Op

unfoldable pub step : State → Op → State
step s (set_enqueued_op k b) = set_enqueued s k b
step s (mark_executed_op k) = mark_executed s k
step s (drop_key_op k) = drop_key s k
step s (buffer_data_op now k frame conn) = (buffer_data s now k frame conn).0
step s (buffer_handled_op now k conn) = buffer_handled s now k conn
step s (take_for_actor_op type name) = (take_for_actor s type name).0
step s (flush_ready_op now ws synced) = (flush_ready s now ws synced).0

unfoldable pub run : State → List Op → State
run s [] = s
run s (o ∷ os) = run (step s o) os

-- The numbers of a call fit their fields; a flush returns, and succeeds.
unfoldable pub Succeeds : State → Op → Type 0
Succeeds s (set_enqueued_op k b) = Unit
Succeeds s (mark_executed_op k) = Unit
Succeeds s (drop_key_op k) = Unit
Succeeds s (buffer_data_op now k frame conn) =
    (k.sender < 2 ^ 64) × (k.msg_id < 2 ^ 64) × All IsByte frame × (length frame + 29 < 2 ^ 32)
Succeeds s (buffer_handled_op now k conn) = (k.sender < 2 ^ 64) × (k.msg_id < 2 ^ 64)
Succeeds s (take_for_actor_op type name) = Unit
Succeeds s (flush_ready_op now ws synced) =
    (r : FlushResult) × ((flush_ready s now ws synced).1 ≡ some r) × (r.ok ≡ true)

unfoldable pub AllSucceed : State → List Op → Type 0
AllSucceed s [] = Unit
AllSucceed s (o ∷ os) = Succeeds s o × AllSucceed (step s o) os

pub new-IsDurable : IsDurable (started [] true [] 0) []
unfolding started persist
new-IsDurable = record {
  file = log_bytes-nil magic;
  frames = tt;
  pending = tt;
  recorded = λ k p. absurd (cc p);
  waiting = λ k p. absurd (cc p);
}
