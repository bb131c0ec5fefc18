-- ===== src/ReceiverLog/Due.antt =====
-- The receiver's log: when a flush is due.
use ultra_net.Prelude.{
  ℕ, ◌+◌, ◌-◌, ◌≤◌, ◌≡◌, refl, ap, Bool, true, false, List, [], ◌∷◌, Option, none, some, arith,
  ◌==◌, Bytes, ◌||◌, not, Bool-cases, inl, inr, ◌⊎◌, length, leb,
}
use ultra_net.ReceiverLog.Index.{Key, Item, contains}
use ultra_net.ReceiverLog.State.{
  PendingRec, State, with_index, append_pending, buffer_data, buffer_handled, set_enqueued,
  mark_executed, drop_key, take_for_actor, handled_durable, pending_handled,
}
use ultra_net.ReceiverLog.Flush.{
  Write, flush_ready, is_ready, commit_batch, commit_written, write_full, batch_bytes, swap_pending,
  committed, with_file,
}
use ultra_net.ReceiverLog.Open.{started}
use ultra_net.ReceiverLog.Run.{
  Op, step, run, set_enqueued_op, mark_executed_op, drop_key_op, buffer_data_op, buffer_handled_op,
  take_for_actor_op, flush_ready_op,
}

-- Where records are pending, the time of the first is known.
pub IsGrouped : State → Type 0
IsGrouped s = (s.pending ≡ []) ⊎ (s.group_open ≡ true)

with_index-IsGrouped : (s : State) (m : List Item) → IsGrouped s → IsGrouped (with_index s m)
unfolding with_index IsGrouped
with_index-IsGrouped s m v = v

append_pending-IsGrouped :
    (s : State) (now : ℕ) (r : PendingRec) → IsGrouped (append_pending s now r)
unfolding append_pending IsGrouped
append_pending-IsGrouped s now r = inr refl

buffer_data-IsGrouped :
    (s : State) (now : ℕ) (k : Key) (frame : Bytes) (conn : ℕ)
    → IsGrouped s
    → IsGrouped (buffer_data s now k frame conn).0
unfolding buffer_data
buffer_data-IsGrouped s now k frame conn v = elim (Bool-cases (contains k s.index)) [
  | inl t ↦ rw t v
  | inr o ↦ rw o (append_pending-IsGrouped _ now _)
]

buffer_handled-IsGrouped :
    (s : State) (now : ℕ) (k : Key) (conn : ℕ)
    → IsGrouped s
    → IsGrouped (buffer_handled s now k conn)
unfolding buffer_handled
buffer_handled-IsGrouped s now k conn v = elim (Bool-cases (not (contains k s.index))) [
  | inl t ↦ rw t v
  | inr o ↦ elim (Bool-cases (handled_durable s k || pending_handled k s.pending)) [
    | inl t ↦ rw (o, t) (with_index-IsGrouped s _ v)
    | inr u ↦ rw (o, u) (append_pending-IsGrouped _ now _)
  ]
]

commit_written-pending :
    (batch : List PendingRec) (synced : Bool) (s : State) (w : Bytes × Option Bool)
    → (commit_written batch synced s w).0.pending ≡ s.pending
unfolding commit_written with_index with_file committed
commit_written-pending batch synced s (file, none) = refl
commit_written-pending batch synced s (file, some false) = refl
commit_written-pending batch false s (file, some true) = refl
commit_written-pending batch true s (file, some true) = refl

pub commit_batch-pending :
    (batch : List PendingRec) (ws : List Write) (synced : Bool) (s : State)
    → (commit_batch batch ws synced (swap_pending s)).0.pending ≡ []
unfolding commit_batch with_index swap_pending
commit_batch-pending batch ws synced s = elim (Bool-cases s.fd_open) [
  | inl t ↦ ground (
    arith,
    t,
    commit_written-pending batch synced (swap_pending s) (write_full ws s.file (batch_bytes batch)),
  )
  | inr o ↦ ground (arith, o)
]

pending-IsGrouped : (s : State) → s.pending ≡ [] → IsGrouped s
unfolding IsGrouped
pending-IsGrouped s h = inl h

flush_ready-IsGrouped :
    (s : State) (now : ℕ) (ws : List Write) (synced : Bool)
    → IsGrouped s
    → IsGrouped (flush_ready s now ws synced).0
unfolding flush_ready
flush_ready-IsGrouped s now ws synced v = elim (Bool-cases (length s.pending == 0)) [
  | inl t ↦ rw t v
  | inr o ↦ elim (Bool-cases (is_ready s now)) [
    | inr u ↦ rw (o, u) v
    | inl t ↦ rw (o, t) (pending-IsGrouped _ (commit_batch-pending s.pending ws synced s))
  ]
]

step-IsGrouped : (s : State) (o : Op) → IsGrouped s → IsGrouped (step s o)
unfolding step set_enqueued mark_executed drop_key take_for_actor
step-IsGrouped s (set_enqueued_op k b) v = with_index-IsGrouped s _ v
step-IsGrouped s (mark_executed_op k) v = with_index-IsGrouped s _ v
step-IsGrouped s (drop_key_op k) v = with_index-IsGrouped s _ v
step-IsGrouped s (take_for_actor_op type name) v = with_index-IsGrouped s _ v
step-IsGrouped s (buffer_data_op now k frame conn) v = buffer_data-IsGrouped s now k frame conn v
step-IsGrouped s (buffer_handled_op now k conn) v = buffer_handled-IsGrouped s now k conn v
step-IsGrouped s (flush_ready_op now ws synced) v = flush_ready-IsGrouped s now ws synced v

run-IsGrouped : (s : State) (os : List Op) → IsGrouped s → IsGrouped (run s os)
unfolding run
run-IsGrouped s [] v = v
run-IsGrouped s (o ∷ os) v = run-IsGrouped (step s o) os (step-IsGrouped s o v)

started-IsGrouped :
    (bytes : Bytes) (opened : Bool) (m : List Item) (torn : ℕ)
    → IsGrouped (started bytes opened m torn)
unfolding started IsGrouped
started-IsGrouped bytes opened m torn = inl refl

length-none : (rs : List PendingRec) → length rs ≡ 0 → rs ≡ []
length-none [] h = refl
length-none (r ∷ rs) h = absurd (omega (arith, h))

-- In any run of calls, those included in which a flush failed, a flush 2 ms or more behind the time at
-- which the group was opened leaves nothing pending.
pub flush_ready_due :
    (bytes : Bytes) (opened : Bool) (m : List Item) (torn : ℕ) (os : List Op) (now : ℕ)
    (ws : List Write) (synced : Bool)
    → (run (started bytes opened m torn) os).group_start + 2000000 ≤ now
    → (flush_ready (run (started bytes opened m torn) os) now ws synced).0.pending ≡ []
unfolding flush_ready is_ready IsGrouped
flush_ready_due bytes opened m torn os now ws synced late =
    let s = run (started bytes opened m torn) os in
    let due : leb 2000000 (now - s.group_start) ≡ true = ground (arith, late) in
    elim (Bool-cases (length s.pending == 0)) [
      | inl t ↦ ground (arith, t, length-none s.pending (ground (arith, t)))
      | inr o ↦
          elim (run-IsGrouped (started bytes opened m torn) os
            (started-IsGrouped bytes opened m torn)) [
              | inl n ↦ absurd (ground (arith, o, ap length n))
              | inr g ↦ ground (arith, o, g, due, commit_batch-pending s.pending ws synced s)
            ]
    ]
