-- ===== src/ReceiverLog/Trace.antt =====
-- The receiver's log: where the records come from that a run of calls leaves pending and in the file.
use ultra_net.Prelude.{
  ℕ, sym, Bool, List, [], ◌∷◌, map, ◌==◌, ◌||◌, not, Bytes, Bool-cases, inl, inr, All, All-append,
  length, if_intro, subst,
}
use ultra_net.Log.{Frame}
use ultra_net.ReceiverLog.Index.{Key, contains}
use ultra_net.ReceiverLog.State.{
  PendingRec, State, set_enqueued, mark_executed, drop_key, append_pending, buffer_data,
  buffer_handled, take_for_actor, with_index, handled_durable, pending_handled,
}
use ultra_net.ReceiverLog.Flush.{Write, frame_of, flush_ready, is_ready}
use ultra_net.ReceiverLog.Durable.{IsPending, IsDurable}
use ultra_net.ReceiverLog.Steps.{
  set_enqueued-IsDurable, mark_executed-IsDurable, drop_key-IsDurable, take_for_actor-IsDurable,
  buffer_handled-IsDurable, buffer_data-IsDurable,
}
use ultra_net.ReceiverLog.Due.{commit_batch-pending}
use ultra_net.ReceiverLog.Run.{
  Op, set_enqueued_op, mark_executed_op, drop_key_op, buffer_data_op, buffer_handled_op,
  take_for_actor_op, flush_ready_op, step, run, Succeeds, AllSucceed, flushed,
  flush_ready-IsDurable,
}

module _ (P : PendingRec → Type 0) (Q : Frame → Type 0)
    (to_Q : (r : PendingRec) → IsPending r → P r → Q (frame_of r)) where
  -- The record that a call asks for has the property.
  unfoldable pub Asks : Op → Type 0
  Asks (set_enqueued_op k b) = Unit
  Asks (mark_executed_op k) = Unit
  Asks (drop_key_op k) = Unit
  Asks (buffer_data_op now k frame conn) =
      P (record { type = 1; id = k; reply_conn_id = conn; body = frame })
  Asks (buffer_handled_op now k conn) =
      P (record { type = 2; id = k; reply_conn_id = conn; body = [] })
  Asks (take_for_actor_op type name) = Unit
  Asks (flush_ready_op now ws synced) = Unit

  append_pending-All :
      (s : State) (now : ℕ) (r : PendingRec)
      → P r
      → All P s.pending
      → All P (append_pending s now r).pending
  unfolding append_pending
  append_pending-All s now r p ps = All-append P s.pending (r ∷ []) ps (p, tt)

  buffer_data-All :
      (s : State) (now : ℕ) (k : Key) (frame : Bytes) (conn : ℕ)
      → P (record { type = 1; id = k; reply_conn_id = conn; body = frame })
      → All P s.pending
      → All P (buffer_data s now k frame conn).0.pending
  unfolding buffer_data with_index
  buffer_data-All s now k frame conn p ps =
      if_intro {X = State × Bool} (λ x. All P x.0.pending) (contains k s.index) _ _ (λ _. ps)
        (λ _. append_pending-All _ now _ p ps)

  buffer_handled-All :
      (s : State) (now : ℕ) (k : Key) (conn : ℕ)
      → P (record { type = 2; id = k; reply_conn_id = conn; body = [] })
      → All P s.pending
      → All P (buffer_handled s now k conn).pending
  unfolding buffer_handled with_index
  buffer_handled-All s now k conn p ps =
      if_intro {X = State} (λ x. All P x.pending) (not (contains k s.index)) _ _ (λ _. ps)
        (λ _.
          if_intro {X = State} (λ x. All P x.pending)
            (handled_durable s k || pending_handled k s.pending) _ _ (λ _. ps)
            (λ _. append_pending-All _ now _ p ps))

  flush_ready-All :
      (s : State) (now : ℕ) (ws : List Write) (synced : Bool)
      → All P s.pending
      → All P (flush_ready s now ws synced).0.pending
  unfolding flush_ready
  flush_ready-All s now ws synced ps = elim (Bool-cases (length s.pending == 0)) [
    | inl t ↦ rw t ps
    | inr o ↦ elim (Bool-cases (is_ready s now)) [
      | inr u ↦ rw (o, u) ps
      | inl t ↦ rw (o, t) (subst (All P) (sym (commit_batch-pending s.pending ws synced s)) tt)
    ]
  ]

  frames-All : (rs : List PendingRec) → All IsPending rs → All P rs → All Q (map frame_of rs)
  frames-All [] v ps = tt
  frames-All (r ∷ rs) (v, vs) (p, ps) = (to_Q r v p, frames-All rs vs ps)

  pub flushed-All :
      (s : State) (fs : List Frame) (now : ℕ)
      → IsDurable s fs
      → All P s.pending
      → All Q fs
      → All Q (flushed s fs now)
  unfolding flushed
  flushed-All s fs now v ps qs =
      if_intro (All Q) (length s.pending == 0) _ _ (λ _. qs)
        (λ _.
          if_intro (All Q) (is_ready s now) _ _
            (λ _. All-append Q fs (map frame_of s.pending) qs (frames-All s.pending v.pending ps))
            (λ _. qs))

  -- A log whose file is whole, with the property of what is pending and of what is in the file.
  unfoldable pub IsTraced : State → List Frame → Type 0
  IsTraced s fs = IsDurable s fs × (All P s.pending × All Q fs)

  step-IsTraced :
      (s : State) (fs : List Frame) (o : Op)
      → Asks o
      → Succeeds s o
      → IsTraced s fs
      → (gs : List Frame) × IsTraced (step s o) gs
  unfolding IsTraced step Succeeds Asks set_enqueued mark_executed drop_key take_for_actor
      with_index
  step-IsTraced s fs (set_enqueued_op k b) a c (v, held) =
      (fs, (set_enqueued-IsDurable s fs k b v, held))
  step-IsTraced s fs (mark_executed_op k) a c (v, held) =
      (fs, (mark_executed-IsDurable s fs k v, held))
  step-IsTraced s fs (drop_key_op k) a c (v, held) = (fs, (drop_key-IsDurable s fs k v, held))
  step-IsTraced s fs (buffer_data_op now k frame conn) a (x, y, z, w) (v, (ps, qs)) = (
    fs,
    (
      buffer_data-IsDurable s fs now k frame conn v x y z w,
      (buffer_data-All s now k frame conn a ps, qs),
    ),
  )
  step-IsTraced s fs (buffer_handled_op now k conn) a (x, y) (v, (ps, qs)) = (
    fs,
    (buffer_handled-IsDurable s fs now k conn v x y, (buffer_handled-All s now k conn a ps, qs)),
  )
  step-IsTraced s fs (take_for_actor_op type name) a c (v, held) =
      (fs, (take_for_actor-IsDurable s fs type name v, held))
  step-IsTraced s fs (flush_ready_op now ws synced) a (r, e, ok) (v, (ps, qs)) = (
    flushed s fs now,
    (
      flush_ready-IsDurable s fs now ws synced r v e ok,
      (flush_ready-All s now ws synced ps, flushed-All s fs now v ps qs),
    ),
  )

  pub run-IsTraced :
      (s : State) (fs : List Frame) (os : List Op)
      → All Asks os
      → AllSucceed s os
      → IsTraced s fs
      → (gs : List Frame) × IsTraced (run s os) gs
  unfolding run AllSucceed
  run-IsTraced s fs [] as' c v = (fs, v)
  run-IsTraced s fs (o ∷ os) (a, as') (c, cs) v =
      let (gs, w) = step-IsTraced s fs o a c v in run-IsTraced (step s o) gs os as' cs w
