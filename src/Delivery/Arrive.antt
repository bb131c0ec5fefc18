-- ===== src/Delivery/Arrive.antt =====
-- Delivery.antt: the arrival of a message, on a node with a log.
use ultra_net.Prelude.{
  if_intro, ℕ, ◌≡◌, sym, subst, ap, ◌∙◌, inl, inr, true, Option, none, some, arith, ◌&&◌, not,
  Bytes, Option-cases,
}
use ultra_net.Wire.{Routed, unpack_routed}
use ultra_net.ReceiverLog.Index.{Key}
use ultra_net.ReceiverLog.State.{
  buffer_data, buffer_handled, executed, handled_durable, has_data, persisted, enqueued,
}
use ultra_net.Delivery.{Node, note_wire_skip}
use ultra_net.Delivery.Accept.{
  Io, flush_round, accept_executed, accept_logged_routed, key_of_routed, handle_routed,
}
use ultra_net.Delivery.Distinct.{buffer_data-IsDistinct, buffer_handled-IsDistinct}
use ultra_net.Delivery.Held.{OwnFrame, buffer_data-IsBenign, buffer_handled-IsBenign}
use ultra_net.Delivery.Once.{AllOnce, AllOnce-benign}
use ultra_net.Delivery.Enqueue.{try_enqueue-AllOnce, post_ack-AllOnce, flush-AllOnce}

skip-AllOnce : (n : Node) (r d : Key → ℕ) → AllOnce n r d → AllOnce (note_wire_skip n) r d
unfolding note_wire_skip
skip-AllOnce n r d v = record {
  logs = v.logs;
  unique = v.unique;
  distinct = v.distinct;
  each = v.each;
}

-- The result of a step, if there is one, keeps the invariant.
abbrev Keeps : (Key → ℕ) → (Key → ℕ) → Option Node → Type 0
Keeps r d x = (m : Node) → x ≡ some m → AllOnce m r d

returned-Keeps : (n : Node) (r d : Key → ℕ) → AllOnce n r d → Keeps r d (some n)
returned-Keeps n r d v m e = subst (λ x. AllOnce x r d) (cc e) v

executed-Keeps :
    (n : Node) (k : Key) (conn : ℕ) (io : Io) (r d : Key → ℕ)
    → AllOnce n r d
    → Keeps r d (accept_executed n k conn io)
unfolding accept_executed
executed-Keeps n k conn io r d v =
    if_intro (Keeps r d) (handled_durable n.rcv k) _ _
      (λ _. returned-Keeps _ r d (post_ack-AllOnce n conn k.msg_id r d v))
      (λ _ m e.
        flush-AllOnce _ m io r d
          (AllOnce-benign n (buffer_handled n.rcv io.now k conn) r d
            (λ j. buffer_handled-IsBenign n.rcv io.now k j conn)
            (buffer_handled-IsDistinct n.rcv io.now k conn) v)
          e)

accept-Keeps :
    (n : Node) (frame : Bytes) (k : Key) (conn : ℕ) (io : Io) (r d : Key → ℕ)
    → OwnFrame k frame
    → AllOnce n r d
    → Keeps r d (accept_logged_routed n frame k conn io)
unfolding accept_logged_routed
accept-Keeps n frame k conn io r d own v =
    if_intro (Keeps r d) (not n.logging) _ _ (λ _. returned-Keeps n r d v)
      (λ _.
        if_intro (Keeps r d) (executed n.rcv k) _ _
          (λ _. executed-Keeps (note_wire_skip n) k conn io r d (skip-AllOnce n r d v))
          (λ _.
            if_intro (Keeps r d) (has_data n.rcv k) _ _
              (λ _.
                if_intro (Keeps r d)
                  (not n.hold_handler && (persisted n.rcv k && not (enqueued n.rcv k))) _ _
                  (λ _. returned-Keeps _ r d (try_enqueue-AllOnce n k r d v))
                  (λ _. returned-Keeps n r d v))
              (λ _ m e.
                flush-AllOnce _ m io r d
                  (AllOnce-benign n (buffer_data n.rcv io.now k frame conn).0 r d
                    (λ j. buffer_data-IsBenign n.rcv io.now k j frame conn own)
                    (buffer_data-IsDistinct n.rcv io.now k frame conn) v)
                  e)))

own_frame :
    (frame : Bytes) (m : Routed) → unpack_routed frame ≡ some m → OwnFrame (key_of_routed m) frame
unfolding OwnFrame
own_frame frame m e m' e' = ap key_of_routed (cc (e, e'))

routed_none :
    (n : Node) (frame : Bytes) (conn : ℕ) (io : Io)
    → unpack_routed frame ≡ none
    → handle_routed n frame conn io ≡ some n
unfolding handle_routed
routed_none n frame conn io e = ground (arith, e)

routed_some :
    (n : Node) (frame : Bytes) (conn : ℕ) (io : Io) (m : Routed)
    → n.logging ≡ true
    → unpack_routed frame ≡ some m
    → handle_routed n frame conn io ≡ accept_logged_routed n frame (key_of_routed m) conn io
unfolding handle_routed
routed_some n frame conn io m l e = ground (arith, l, e)

pub handle_routed-AllOnce :
    (n m : Node) (frame : Bytes) (conn : ℕ) (io : Io) (r d : Key → ℕ)
    → AllOnce n r d
    → handle_routed n frame conn io ≡ some m
    → AllOnce m r d
handle_routed-AllOnce n m frame conn io r d v h = elim (Option-cases (unpack_routed frame)) [
  | inl e ↦ returned-Keeps n r d v m (sym (routed_none n frame conn io e) ∙ h)
  | inr (t, e) ↦
      accept-Keeps n frame (key_of_routed t) conn io r d (own_frame frame t e) v m
        (sym (routed_some n frame conn io t v.logs e) ∙ h)
]

pub flush_round-AllOnce :
    (n m : Node) (io : Io) (r d : Key → ℕ)
    → AllOnce n r d
    → flush_round n io ≡ some m
    → AllOnce m r d
unfolding flush_round
flush_round-AllOnce n m io r d v h = flush-AllOnce n m io r d v (ground (arith, v.logs, h))
