-- ===== src/ReceiverLog/Acks.antt =====
-- The receiver's log: what a flush that returns has done, well or not.
use ultra_net.Prelude.{
  ℕ, ◌≡◌, refl, sym, Bool, true, false, List, [], ◌∷◌, ◌++◌, map, Option, none, some, arith, ◌==◌,
  Bytes, ◌&&◌, ◌||◌, Bool-cases, inl, inr, ◌⊎◌, All, length, subst,
}
use ultra_net.Log.{Frame, log_bytes}
use ultra_net.ReceiverLog.State.{PendingRec, State}
use ultra_net.ReceiverLog.Flush.{
  magic, Write, frame_of, AckItem, FlushResult, flush_ready, is_ready, commit_batch, commit_written,
  write_full, batch_bytes, swap_pending, commit_acks, nothing, not_ok,
}
use ultra_net.ReceiverLog.Index.{Key, same, same_refl}
use ultra_net.ReceiverLog.Open.{key_of, started}
use ultra_net.ReceiverLog.Durable.{IsPending, key_of-frame_of, frame_of_type}
use ultra_net.ReceiverLog.Run.{
  Op, set_enqueued_op, mark_executed_op, drop_key_op, buffer_data_op, buffer_handled_op,
  take_for_actor_op, flush_ready_op, run, AllSucceed, flushed, flush_ready-IsDurable, new-IsDurable,
}
use ultra_net.ReceiverLog.Trace.{Asks, IsTraced, run-IsTraced}

-- A record in the file that this message has been handled.
pub has_handled : Key → List Frame → Bool
has_handled k [] = false
has_handled k (f ∷ fs) = ((f.type == 2) && same k (key_of f)) || has_handled k fs

-- The call was told that this message has been handled, which came over this connection.
unfoldable pub IsTold : Key → ℕ → Op → Type 0
IsTold k conn (set_enqueued_op j b) = ⊥
IsTold k conn (mark_executed_op j) = ⊥
IsTold k conn (drop_key_op j) = ⊥
IsTold k conn (buffer_data_op now j frame c) = ⊥
IsTold k conn (buffer_handled_op now j c) = (j ≡ k) × (c ≡ conn)
IsTold k conn (take_for_actor_op type name) = ⊥
IsTold k conn (flush_ready_op now ws synced) = ⊥

unfoldable pub Told : List Op → Key → ℕ → Type 0
Told [] k conn = ⊥
Told (o ∷ os) k conn = IsTold k conn o ⊎ Told os k conn

-- The message that is acknowledged is one that a call was told of, with the connection that it came
-- over, and there is a record in the file that it has been handled.
unfoldable pub IsHandledIn : List Op → List Frame → AckItem → Type 0
IsHandledIn os fs a =
    (k : Key) × (k.msg_id ≡ a.msg_id) × Told os k a.reply_conn_id × (has_handled k fs ≡ true)

-- The records of this kind that are pending come from such calls.
abbrev IsOwn : List Op → PendingRec → Type 0
IsOwn os r = (r.type == 2) ≡ true → Told os r.id r.reply_conn_id

has_handled-more :
    (k : Key) (fs gs : List Frame) → has_handled k gs ≡ true → has_handled k (fs ++ gs) ≡ true
unfolding has_handled
has_handled-more k [] gs h = h
has_handled-more k (f ∷ fs) gs h = ground (arith, has_handled-more k fs gs h)

All-IsHandledIn-more :
    (os : List Op) (fs gs : List Frame) (as' : List AckItem)
    → All (IsHandledIn os gs) as'
    → All (IsHandledIn os (fs ++ gs)) as'
unfolding IsHandledIn
All-IsHandledIn-more os fs gs [] v = tt
All-IsHandledIn-more os fs gs (a ∷ as') ((k, id, told, v), vs) =
    ((k, id, told, has_handled-more k fs gs v), All-IsHandledIn-more os fs gs as' vs)

has_handled-frame_of :
    (r : PendingRec) (rs : List PendingRec)
    → IsPending r
    → (r.type == 2) ≡ true
    → has_handled r.id (map frame_of (r ∷ rs)) ≡ true
unfolding has_handled
has_handled-frame_of r rs v t =
    ground (arith, t, frame_of_type r, key_of-frame_of r v, same_refl r.id)

commit_acks_data :
    (r : PendingRec) (rs : List PendingRec)
    → (r.type == 2) ≡ false
    → commit_acks (r ∷ rs) ≡ commit_acks rs
unfolding commit_acks
commit_acks_data r rs o = rw o refl

commit_acks_handled :
    (r : PendingRec) (rs : List PendingRec)
    → (r.type == 2) ≡ true
    → commit_acks (r ∷ rs)
      ≡ record { reply_conn_id = r.reply_conn_id; msg_id = r.id.msg_id } ∷ commit_acks rs
unfolding commit_acks
commit_acks_handled r rs t = rw t refl

commit_acks-nil : (os : List Op) → All (IsHandledIn os []) (commit_acks [])
unfolding commit_acks
commit_acks-nil os = tt

commit_acks-IsHandledIn :
    (os : List Op) (rs : List PendingRec)
    → All IsPending rs
    → All (IsOwn os) rs
    → All (IsHandledIn os (map frame_of rs)) (commit_acks rs)
unfolding IsHandledIn
commit_acks-IsHandledIn os [] v ps = commit_acks-nil os
commit_acks-IsHandledIn os (r ∷ rs) (v, vs) (p, ps) =
    let rest =
      All-IsHandledIn-more os (frame_of r ∷ []) (map frame_of rs) (commit_acks rs)
        (commit_acks-IsHandledIn os rs vs ps) in
    elim (Bool-cases (r.type == 2)) [
      | inl t ↦
          subst (All (IsHandledIn os (map frame_of (r ∷ rs)))) (sym (commit_acks_handled r rs t))
            ((r.id, refl, p t, has_handled-frame_of r rs v t), rest)
      | inr o ↦
          subst (All (IsHandledIn os (map frame_of (r ∷ rs)))) (sym (commit_acks_data r rs o)) rest
    ]

commit_written-acks :
    (batch : List PendingRec) (synced : Bool) (s : State) (w : Bytes × Option Bool)
    (r : FlushResult)
    → (commit_written batch synced s w).1 ≡ some r
    → (r.acks ≡ []) ⊎ ((r.ok ≡ true) × (r.acks ≡ commit_acks batch))
unfolding commit_written not_ok
commit_written-acks batch synced s (file, none) r e = absurd (cc e)
commit_written-acks batch synced s (file, some false) r e = inl (ground (arith, e))
commit_written-acks batch false s (file, some true) r e = inl (ground (arith, e))
commit_written-acks batch true s (file, some true) r e = inr (ground (arith, e), ground (arith, e))

commit_batch-acks :
    (batch : List PendingRec) (ws : List Write) (synced : Bool) (s : State) (r : FlushResult)
    → (commit_batch batch ws synced s).1 ≡ some r
    → (r.acks ≡ []) ⊎ ((r.ok ≡ true) × (r.acks ≡ commit_acks batch))
unfolding commit_batch not_ok
commit_batch-acks batch ws synced s r e = elim (Bool-cases s.fd_open) [
  | inl t ↦
      commit_written-acks batch synced s (write_full ws s.file (batch_bytes batch)) r
        (ground (arith, t, e))
  | inr o ↦ inl (ground (arith, o, e))
]

flush_ready_acked :
    (s : State) (fs : List Frame) (now : ℕ) (ws : List Write) (synced : Bool) (r : FlushResult)
    → (flush_ready s now ws synced).1 ≡ some r
    → (r.acks ≡ [])
      ⊎ ((r.ok ≡ true)
          × (r.acks ≡ commit_acks s.pending)
          × (flushed s fs now ≡ fs ++ map frame_of s.pending))
unfolding flush_ready flushed nothing
flush_ready_acked s fs now ws synced r e = elim (Bool-cases (length s.pending == 0)) [
  | inl t ↦ inl (ground (arith, t, e))
  | inr o ↦ elim (Bool-cases (is_ready s now)) [
    | inr u ↦ inl (ground (arith, o, u, e))
    | inl t ↦
        elim (commit_batch-acks s.pending ws synced (swap_pending s) r (ground (arith, o, t, e))) [
          | inl n ↦ inl n
          | inr (ok, acks) ↦ inr (ok, acks, ground (arith, o, t))
        ]
  ]
]

AnyFrame : Frame → Type 0
AnyFrame f = Unit

own_frame : (os : List Op) (r : PendingRec) → IsPending r → IsOwn os r → AnyFrame (frame_of r)
unfolding AnyFrame
own_frame os r v p = tt

-- The calls of a run ask for records that are their own.
Asks-Told :
    (whole os : List Op)
    → ((k : Key) (conn : ℕ) → Told os k conn → Told whole k conn)
    → All (Asks (IsOwn whole) AnyFrame (own_frame whole)) os
unfolding Asks Told IsTold
Asks-Told whole [] part = tt
Asks-Told whole (o ∷ os) part =
    (one o (λ k c h. part k c (inl h)), Asks-Told whole os (λ k c h. part k c (inr h)))
  where
    one :
        (o : Op)
        → ((k : Key) (conn : ℕ) → IsTold k conn o → Told whole k conn)
        → Asks (IsOwn whole) AnyFrame (own_frame whole) o
    one (set_enqueued_op k b) h = tt
    one (mark_executed_op k) h = tt
    one (drop_key_op k) h = tt
    one (buffer_data_op now k frame conn) h = λ t. absurd (ground (arith, t))
    one (buffer_handled_op now k conn) h = λ t. h k conn (refl, refl)
    one (take_for_actor_op type name) h = tt
    one (flush_ready_op now ws synced) h = tt

-- From a new file, behind any run of calls whose ids, bytes and lengths fit a record, and in which each
-- flush returns and none fails: a flush that returns acknowledges nothing, or it leaves a file of whole
-- records. Each acknowledgement is then of a message, its sender with it, and for a connection that a
-- call of `buffer_handled` gave, and the file has a record that this message has been handled.
pub flush_ready-acks :
    (os : List Op) (now : ℕ) (ws : List Write) (synced : Bool) (r : FlushResult)
    → AllSucceed (started [] true [] 0) os
    → (flush_ready (run (started [] true [] 0) os) now ws synced).1 ≡ some r
    → (r.acks ≡ [])
      ⊎ ((gs : List Frame) × ((flush_ready (run (started [] true [] 0) os) now ws synced).0.file
            ≡ log_bytes magic gs)
          × All (IsHandledIn os gs) r.acks)
unfolding IsTraced
flush_ready-acks os now ws synced r a e =
    let s = run (started [] true [] 0) os in
    let (fs, (v, (ps, qs))) =
      run-IsTraced (IsOwn os) AnyFrame (own_frame os) (started [] true [] 0) [] os
        (Asks-Told os os (λ k c h. h)) a (new-IsDurable, (unfold started in tt, tt)) in
    elim (flush_ready_acked s fs now ws synced r e) [
      | inl n ↦ inl n
      | inr (ok, acks, more) ↦
          let durable = flush_ready-IsDurable s fs now ws synced r v e ok in
          inr (
            flushed s fs now,
            durable.file,
            subst (λ gs. All (IsHandledIn os gs) r.acks) (sym more)
                (subst (All (IsHandledIn os (fs ++ map frame_of s.pending))) (sym acks) (
                  All-IsHandledIn-more os fs (map frame_of s.pending) (commit_acks s.pending)
                    (commit_acks-IsHandledIn os s.pending v.pending ps))),
          )
    ]
