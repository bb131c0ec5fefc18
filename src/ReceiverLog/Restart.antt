-- ===== src/ReceiverLog/Restart.antt =====
-- The receiver's log, started over a file that a run of calls left.
use ultra_net.Prelude.{
  ◌≡◌, refl, sym, ap, ◌∙◌, true, false, List, [], ◌∷◌, none, some, arith, ◌==◌, Bytes, ◌&&◌, ◌||◌,
  Bool-cases, Option-cases, inl, inr, All, subst,
}
use ultra_net.Log.{Frame, log_bytes}
use ultra_net.Log.Frames.{IsFrame}
use ultra_net.Log.Recovery.{scan-log_bytes}
use ultra_net.ReceiverLog.Index.{Key, Entry, same, Item, find, modify, emplace, contains, same_eq}
use ultra_net.ReceiverLog.State.{PendingRec, State, executed, persisted, enqueued, copy_frame}
use ultra_net.ReceiverLog.Flush.{magic, frame_of, put_handled}
use ultra_net.ReceiverLog.Open.{receiver_log, started, load, load_frame, old_entry, key_of}
use ultra_net.ReceiverLog.Persist.{persist, persisted-persist}
use ultra_net.ReceiverLog.Durable.{
  has_record, IsPending, key_of-frame_of, frame_of_type, frame_of_body,
}
use ultra_net.ReceiverLog.Run.{
  Op, set_enqueued_op, mark_executed_op, drop_key_op, buffer_data_op, buffer_handled_op,
  take_for_actor_op, flush_ready_op, run, AllSucceed, new-IsDurable,
}
use ultra_net.ReceiverLog.Trace.{Asks, IsTraced, run-IsTraced}

-- As the scan at the start makes an entry, with this frame if it is of the key.
IsOld : Key → Bytes → Item → Type 0
IsOld k frame i =
    (i.entry.persisted ≡ true)
    × (i.entry.executed ≡ false)
    × (i.entry.enqueued ≡ false)
    × (same k i.id ≡ true → i.entry.frame ≡ frame)

-- The data records of the key have this frame.
unfoldable pub IsFor : Key → Bytes → Frame → Type 0
IsFor k frame f = (f.type == 1) ≡ true → same k (key_of f) ≡ true → f.body ≡ frame

abbrev IsRecOf : Key → Bytes → PendingRec → Type 0
IsRecOf k frame r = (r.type == 1) ≡ true → same k r.id ≡ true → r.body ≡ frame

frame_of-IsFor :
    (k : Key) (frame : Bytes) (r : PendingRec)
    → IsPending r
    → IsRecOf k frame r
    → IsFor k frame (frame_of r)
unfolding IsFor
frame_of-IsFor k frame r v p t own =
    let kind : (r.type == 1) ≡ true = ap (λ n. n == 1) (sym (frame_of_type r)) ∙ t in
    frame_of_body r ∙ p kind (ap (same k) (sym (key_of-frame_of r v)) ∙ own)

-- What is sent with the key has this frame.
unfoldable pub Sends : Key → Bytes → Op → Type 0
Sends k frame (set_enqueued_op j b) = Unit
Sends k frame (mark_executed_op j) = Unit
Sends k frame (drop_key_op j) = Unit
Sends k frame (buffer_data_op now j f conn) = same k j ≡ true → f ≡ frame
Sends k frame (buffer_handled_op now j conn) = Unit
Sends k frame (take_for_actor_op type name) = Unit
Sends k frame (flush_ready_op now ws synced) = Unit

Asks-Sends :
    (k : Key) (frame : Bytes) (os : List Op)
    → All (Sends k frame) os
    → All (Asks (IsRecOf k frame) (IsFor k frame) (frame_of-IsFor k frame)) os
unfolding Asks Sends
Asks-Sends k frame [] v = tt
Asks-Sends k frame (o ∷ os) (v, vs) = (one o v, Asks-Sends k frame os vs)
  where
    one :
        (o : Op)
        → Sends k frame o
        → Asks (IsRecOf k frame) (IsFor k frame) (frame_of-IsFor k frame) o
    one (set_enqueued_op j b) h = tt
    one (mark_executed_op j) h = tt
    one (drop_key_op j) h = tt
    one (buffer_data_op now j f conn) h = λ t. h
    one (buffer_handled_op now j conn) h = λ t. absurd (ground (arith, t))
    one (take_for_actor_op type name) h = tt
    one (flush_ready_op now ws synced) h = tt

modify-IsOld :
    (k : Key) (frame : Bytes) (j : Key) (m : List Item)
    → All (IsOld k frame) m
    → All (IsOld k frame) (modify j put_handled m)
unfolding modify put_handled IsOld
modify-IsOld k frame j [] v = v
modify-IsOld k frame j (i ∷ m) (v, vs) = elim (Bool-cases (same j i.id)) [
  | inl t ↦ rw t (v, vs)
  | inr o ↦ rw o (v, modify-IsOld k frame j m vs)
]

emplace_new :
    (k : Key) (e : Entry) (m : List Item)
    → find k m ≡ none
    → emplace k e m ≡ record { id = k; entry = e } ∷ m
unfolding emplace
emplace_new k e m n = ground (arith, n)

emplace_old : (k : Key) (e x : Entry) (m : List Item) → find k m ≡ some x → emplace k e m ≡ m
unfolding emplace
emplace_old k e x m n = ground (arith, n)

emplace-IsOld :
    (k : Key) (frame : Bytes) (j : Key) (e : Entry) (m : List Item)
    → IsOld k frame (record { id = j; entry = e })
    → All (IsOld k frame) m
    → All (IsOld k frame) (emplace j e m)
emplace-IsOld k frame j e m old v = elim (Option-cases (find j m)) [
  | inl n ↦ subst (All (IsOld k frame)) (sym (emplace_new j e m n)) (old, v)
  | inr (x, n) ↦ subst (All (IsOld k frame)) (sym (emplace_old j e x m n)) v
]

old_entry-IsOld :
    (k : Key) (frame : Bytes) (j : Key) (body : Bytes)
    → (same k j ≡ true → body ≡ frame)
    → IsOld k frame (record { id = j; entry = old_entry body })
unfolding old_entry IsOld
old_entry-IsOld k frame j body own = (refl, refl, refl, own)

load_frame-IsOld :
    (k : Key) (frame : Bytes) (f : Frame) (m : List Item)
    → IsFor k frame f
    → All (IsOld k frame) m
    → All (IsOld k frame) (load_frame f m)
unfolding load_frame IsFor
load_frame-IsOld k frame f m own v = elim (Bool-cases (f.type == 1)) [
  | inl t ↦ rw t (
      emplace-IsOld k frame (key_of f) (old_entry f.body) m
        (old_entry-IsOld k frame (key_of f) f.body (own t)) v)
  | inr o ↦ elim (Bool-cases (f.type == 2)) [
    | inl t ↦ rw (o, t) (modify-IsOld k frame (key_of f) m v)
    | inr u ↦ rw (o, u) v
  ]
]

load-IsOld :
    (k : Key) (frame : Bytes) (fs : List Frame) (m : List Item)
    → All (IsFor k frame) fs
    → All (IsOld k frame) m
    → All (IsOld k frame) (load fs m)
unfolding load
load-IsOld k frame [] m qs v = v
load-IsOld k frame (f ∷ fs) m (q, qs) v =
    load-IsOld k frame fs (load_frame f m) qs (load_frame-IsOld k frame f m q v)

contains-modify :
    (k j : Key) (f : Entry → Entry) (m : List Item) → contains j (modify k f m) ≡ contains j m
unfolding contains modify find
contains-modify k j f [] = refl
contains-modify k j f (i ∷ m) = elim (Bool-cases (same k i.id)) [
  | inl t ↦ ground (arith, t)
  | inr o ↦ ground (arith, o, contains-modify k j f m)
]

contains-emplace :
    (k j : Key) (e : Entry) (m : List Item)
    → contains j (emplace k e m) ≡ (same j k || contains j m)
unfolding contains emplace find
contains-emplace k j e m = elim (Option-cases (find k m)) [
  | inl n ↦ ground (arith, n)
  | inr (x, n) ↦ elim (Bool-cases (same j k)) [
    | inl t ↦ ground (arith, n, t, same_eq j k t)
    | inr o ↦ ground (arith, n, o)
  ]
]

contains-load_frame :
    (k : Key) (f : Frame) (m : List Item)
    → contains k (load_frame f m) ≡ (((f.type == 1) && same k (key_of f)) || contains k m)
unfolding load_frame
contains-load_frame k f m = elim (Bool-cases (f.type == 1)) [
  | inl t ↦ ground (arith, t, contains-emplace (key_of f) k (old_entry f.body) m)
  | inr o ↦ ground (arith, o, contains-modify (key_of f) k put_handled m)
]

-- The index that a start makes has an entry for a key just where the file has a data record for it.
contains-load :
    (k : Key) (fs : List Frame) (m : List Item)
    → contains k (load fs m) ≡ (has_record k fs || contains k m)
unfolding load has_record
contains-load k [] m = refl
contains-load k (f ∷ fs) m =
    ground (arith, contains-load k fs (load_frame f m), contains-load_frame k f m)

find-IsOld :
    (k : Key) (frame : Bytes) (m : List Item) (e : Entry)
    → All (IsOld k frame) m
    → find k m ≡ some e
    → (e.persisted ≡ true) × (e.executed ≡ false) × (e.enqueued ≡ false) × (e.frame ≡ frame)
unfolding find IsOld
find-IsOld k frame [] e v h = absurd (cc h)
find-IsOld k frame (i ∷ m) e ((p, x, q, own), vs) h = elim (Bool-cases (same k i.id)) [
  | inl t ↦
      let is : i.entry ≡ e = ground (arith, t, h) in
      (
        sym (ap (λ j. j.persisted) is) ∙ p,
        sym (ap (λ j. j.executed) is) ∙ x,
        sym (ap (λ j. j.enqueued) is) ∙ q,
        sym (ap (λ j. j.frame) is) ∙ own t,
      )
  | inr o ↦ find-IsOld k frame m e vs (ground (arith, o, h))
]

found-IsOld :
    (s : State) (k : Key) (frame : Bytes)
    → All (IsOld k frame) s.index
    → contains k s.index ≡ true
    → (persisted s k ≡ true)
      × (executed s k ≡ false)
      × (enqueued s k ≡ false)
      × (copy_frame s k ≡ frame)
unfolding persisted executed enqueued copy_frame contains
found-IsOld s k frame v h = elim (Option-cases (find k s.index)) [
  | inl n ↦ absurd (ground (arith, n, h))
  | inr (e, n) ↦
      let (p, x, q, b) = find-IsOld k frame s.index e v n in
      (ground (arith, n, p), ground (arith, n, x), ground (arith, n, q), ground (arith, n, b))
]

persisted-recorded : (s : State) (k : Key) → persisted s k ≡ true → persist k s.index ≡ some true
persisted-recorded s k h = elim (Option-cases (persist k s.index)) [
  | inl n ↦ absurd (ground (arith, n, h, persisted-persist s k))
  | inr (b, n) ↦ ground (arith, n, h, persisted-persist s k)
]

receiver_log-log_bytes :
    (fs : List Frame)
    → All (IsFrame 16) fs
    → receiver_log (log_bytes magic fs) true
      ≡ some (started (log_bytes magic fs) true (load fs []) 0)
unfolding receiver_log
receiver_log-log_bytes fs v = ground (arith, scan-log_bytes magic 16 fs refl v)

-- From a new file, in any run of calls whose ids, bytes and lengths fit a record, and in which each flush
-- returns and none fails: take a message that was persisted, and that always came with the same frame.
-- The log that is started over the file again is not torn, and holds the message, with this frame, as
-- one to be executed.
pub receiver_log-run :
    (os : List Op) (k : Key) (frame : Bytes)
    → AllSucceed (started [] true [] 0) os
    → All (Sends k frame) os
    → persisted (run (started [] true [] 0) os) k ≡ true
    → (s : State) × (receiver_log (run (started [] true [] 0) os).file true ≡ some s)
      × (s.torn ≡ 0)
      × (persisted s k ≡ true)
      × (executed s k ≡ false)
      × (enqueued s k ≡ false)
      × (copy_frame s k ≡ frame)
unfolding started contains IsTraced
receiver_log-run os k frame a sends h =
    let (fs, (v, (ps, qs))) =
      run-IsTraced (IsRecOf k frame) (IsFor k frame) (frame_of-IsFor k frame) (started [] true [] 0)
        [] os (Asks-Sends k frame os sends) a (new-IsDurable, (tt, tt)) in
    let held = v.recorded k (persisted-recorded _ k h) in
    let known = contains-load k fs [] in
    let s = started (log_bytes magic fs) true (load fs []) 0 in
    let (p, x, q, b) =
      found-IsOld s k frame (load-IsOld k frame fs [] qs tt) (ground (arith, known, held)) in
    (s, ap (λ c. receiver_log c true) v.file ∙ receiver_log-log_bytes fs v.frames, refl, p, x, q, b)
