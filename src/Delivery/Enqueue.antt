-- ===== src/Delivery/Enqueue.antt =====
-- Delivery.antt: messages that go from the log to the mailboxes, one copy of each.
use ultra_net.Prelude.{
  if_intro, ℕ, ◌+◌, ◌≡◌, sym, subst, ap, ◌∙◌, inl, inr, true, false, List, [], ◌∷◌, some, arith,
  ◌||◌, ◌==◌, not, Bytes, Option-cases,
}
use ultra_net.ReceiverLog.Index.{Key, Entry, find, find-modify_self}
use ultra_net.ReceiverLog.State.{
  State, with_index, set_enqueued, put_enqueued, executed, persisted, enqueued, copy_frame,
  waiting_keys, is_empty, reply_conn,
}
use ultra_net.ReceiverLog.Flush.{AckItem, FlushResult, flush_ready}
use ultra_net.Delivery.{
  Node, DedupRoom, push, already, full, dedup_room_for, with_rcv, post_remote_ack,
}
use ultra_net.Delivery.Push.{
  push_routed_frame, settle, push_marked, enqueue_in, try_enqueue_receiver, enqueue_all,
  pump_receiver_waiting,
}
use ultra_net.Delivery.Accept.{post_acks, apply_receiver_flush, Io, flush}
use ultra_net.Delivery.Distinct.{flush_ready-IsDistinct}
use ultra_net.Delivery.Held.{is_held, OwnFrame, Owns}
use ultra_net.Delivery.Flushes.{flush_ready-IsBenign}
use ultra_net.Delivery.Once.{
  mails, AllOnce, AllOnce-benign, mark-AllOnce, unmark-AllOnce, push_cases, mailed, mailed-AllOnce,
}

-- The push of a frame whose message has no copy, if it is marked as enqueued, and what settles it.
pub settle-AllOnce :
    (n : Node) (j : Key) (frame : Bytes) (conn : ℕ) (r d : Key → ℕ)
    → OwnFrame j frame
    → mails j n.mail + r j ≡ 0
    → is_held (find j n.rcv.index) ≡ true
    → AllOnce n r d
    → AllOnce (settle j (push_routed_frame n frame conn)) r d
unfolding settle OwnFrame mailed
settle-AllOnce n j frame conn r d own z h v = elim (push_cases n frame conn) [
  | inl e ↦ subst (λ x. AllOnce (settle j x) r d) (sym e) (unmark-AllOnce n j false r d z v)
  | inr (m, a, u, e) ↦
      subst (λ x. AllOnce (settle j x) r d) (sym e)
        (mailed-AllOnce n a m conn r d (subst (λ i. mails i n.mail + r i ≡ 0) (sym (own m u)) z)
          (subst (λ i. is_held (find i n.rcv.index) ≡ true) (sym (own m u)) h) v)
]

idle_entry :
    (s : State) (k : Key)
    → executed s k ≡ false
    → persisted s k ≡ true
    → enqueued s k ≡ false
    → (e : Entry) × (find k s.index ≡ some e)
      × (e.executed ≡ false)
      × (e.persisted ≡ true)
      × (e.enqueued ≡ false)
unfolding executed persisted enqueued
idle_entry s k x p q = elim (Option-cases (find k s.index)) [
  | inl n ↦ absurd (ground (arith, n, p))
  | inr (e, f) ↦ (e, f, ground (arith, f, x), ground (arith, f, p), ground (arith, f, q))
]

no_copy :
    (n : Node) (k : Key) (e : Entry) (r d : Key → ℕ)
    → find k n.rcv.index ≡ some e
    → e.enqueued ≡ false
    → AllOnce n r d
    → mails k n.mail + r k ≡ 0
unfolding is_held
no_copy n k e r d f q v = elim (v.each k).held [
  | inl z ↦ z
  | inr h ↦ absurd (ground (arith, f, q, h))
]

marked_is_held :
    (s : State) (k : Key) (e : Entry)
    → find k s.index ≡ some e
    → e.executed ≡ false
    → e.persisted ≡ true
    → is_held (find k (set_enqueued s k true).index) ≡ true
unfolding set_enqueued with_index is_held put_enqueued
marked_is_held s k e f x p =
    ap is_held (find-modify_self k (put_enqueued true) s.index f) ∙ ground (arith, x, p)

frame_found : (s : State) (k : Key) (e : Entry) → find k s.index ≡ some e → copy_frame s k ≡ e.frame
unfolding copy_frame
frame_found s k e f = ground (arith, f)

owned_frame :
    (n : Node) (k : Key) (e : Entry) (r d : Key → ℕ)
    → find k n.rcv.index ≡ some e
    → AllOnce n r d
    → OwnFrame k (copy_frame n.rcv k)
unfolding Owns
owned_frame n k e r d f v =
    subst (OwnFrame k) (sym (frame_found n.rcv k e f)) (subst (Owns k) f (v.each k).owns)

push_marked-AllOnce :
    (n : Node) (k : Key) (r d : Key → ℕ)
    → executed n.rcv k ≡ false
    → persisted n.rcv k ≡ true
    → enqueued n.rcv k ≡ false
    → AllOnce n r d
    → AllOnce (push_marked n k (copy_frame n.rcv k)) r d
unfolding push_marked with_rcv
push_marked-AllOnce n k r d x p q v =
    let (e, f, ex, ep, eq) = idle_entry n.rcv k x p q in
    settle-AllOnce (with_rcv n (set_enqueued n.rcv k true)) k (copy_frame n.rcv k)
      (reply_conn n.rcv k) r d (owned_frame n k e r d f v) (no_copy n k e r d f eq v)
      (marked_is_held n.rcv k e f ex ep) (mark-AllOnce n k r d v)

enqueue_in-AllOnce :
    (room : DedupRoom) (n : Node) (k : Key) (r d : Key → ℕ)
    → executed n.rcv k ≡ false
    → persisted n.rcv k ≡ true
    → enqueued n.rcv k ≡ false
    → AllOnce n r d
    → AllOnce (enqueue_in room n k) r d
unfolding enqueue_in
enqueue_in-AllOnce full n k r d x p q v = v
enqueue_in-AllOnce already n k r d x p q v = mark-AllOnce n k r d v
enqueue_in-AllOnce push n k r d x p q v =
    if_intro (λ x. AllOnce x r d) (is_empty (copy_frame n.rcv k)) n
      (push_marked n k (copy_frame n.rcv k)) (λ _. v) (λ _. push_marked-AllOnce n k r d x p q v)

pub try_enqueue-AllOnce :
    (n : Node) (k : Key) (r d : Key → ℕ) → AllOnce n r d → AllOnce (try_enqueue_receiver n k) r d
unfolding try_enqueue_receiver
try_enqueue-AllOnce n k r d v =
    if_intro (λ x. AllOnce x r d) (not n.logging || n.hold_handler) _ _ (λ _. v)
      (λ _.
        if_intro (λ x. AllOnce x r d) (executed n.rcv k || not (persisted n.rcv k)) _ _ (λ _. v)
          (λ live.
            if_intro (λ x. AllOnce x r d) (enqueued n.rcv k) _ _ (λ _. v)
              (λ q.
                enqueue_in-AllOnce (dedup_room_for n k) n k r d (ground (arith, live))
                  (ground (arith, live)) q v)))

pub enqueue_all-AllOnce :
    (n : Node) (ks : List Key) (r d : Key → ℕ) → AllOnce n r d → AllOnce (enqueue_all n ks) r d
unfolding enqueue_all
enqueue_all-AllOnce n [] r d v = v
enqueue_all-AllOnce n (k ∷ ks) r d v =
    enqueue_all-AllOnce (try_enqueue_receiver n k) ks r d (try_enqueue-AllOnce n k r d v)

pub pump-AllOnce :
    (n : Node) (r d : Key → ℕ) → AllOnce n r d → AllOnce (pump_receiver_waiting n) r d
unfolding pump_receiver_waiting
pump-AllOnce n r d v =
    if_intro (λ x. AllOnce x r d) (not n.logging || n.hold_handler) _ _ (λ _. v)
      (λ _. enqueue_all-AllOnce n (waiting_keys n.rcv.index) r d v)

pub post_ack-AllOnce :
    (n : Node) (conn id : ℕ) (r d : Key → ℕ)
    → AllOnce n r d
    → AllOnce (post_remote_ack n conn id) r d
unfolding post_remote_ack
post_ack-AllOnce n conn id r d v =
    if_intro (λ x. AllOnce x r d) (conn == 0) _ _ (λ _. v)
      (λ _. record { logs = v.logs; unique = v.unique; distinct = v.distinct; each = v.each })

pub post_acks-AllOnce :
    (n : Node) (as' : List AckItem) (r d : Key → ℕ) → AllOnce n r d → AllOnce (post_acks n as') r d
unfolding post_acks
post_acks-AllOnce n [] r d v = v
post_acks-AllOnce n (a ∷ as') r d v =
    post_acks-AllOnce (post_remote_ack n a.reply_conn_id a.msg_id) as' r d
      (post_ack-AllOnce n a.reply_conn_id a.msg_id r d v)

apply_flush-AllOnce :
    (n : Node) (f : FlushResult) (r d : Key → ℕ)
    → AllOnce n r d
    → AllOnce (apply_receiver_flush n f) r d
unfolding apply_receiver_flush
apply_flush-AllOnce n f r d v =
    if_intro (λ x. AllOnce x r d) f.ok _ _
      (λ _. pump-AllOnce _ r d (
        post_acks-AllOnce _ f.acks r d (
          if_intro (λ x. AllOnce x r d) n.hold_handler _ _ (λ _. v)
            (λ _. enqueue_all-AllOnce n f.data_keys r d v))))
      (λ _. v)

flushed_result :
    (n m : Node) (io : Io)
    → flush n io ≡ some m
    → (f : FlushResult) × (apply_receiver_flush
          (with_rcv n (flush_ready n.rcv io.now io.writes io.synced).0)
          f
        ≡ m)
unfolding flush
flushed_result n m io h = elim (Option-cases (flush_ready n.rcv io.now io.writes io.synced).1) [
  | inl e ↦ absurd (ground (arith, e, h))
  | inr (f, e) ↦ (f, ground (arith, e, h))
]

-- Whichever way the flush goes, if it returns.
pub flush-AllOnce :
    (n m : Node) (io : Io) (r d : Key → ℕ) → AllOnce n r d → flush n io ≡ some m → AllOnce m r d
flush-AllOnce n m io r d v h =
    let (f, e) = flushed_result n m io h in
    subst (λ x. AllOnce x r d) e
      (apply_flush-AllOnce _ f r d (
        AllOnce-benign n _ r d (flush_ready-IsBenign n.rcv io.now io.writes io.synced)
          (flush_ready-IsDistinct n.rcv io.now io.writes io.synced) v))
