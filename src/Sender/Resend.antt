-- ===== src/Sender/Resend.antt =====
-- Sender.antt: what is posted again, and when.
use ultra_net.Prelude.{
  ℕ, ◌+◌, ◌≡◌, refl, sym, ap, ◌∙◌, inl, inr, true, false, List, [], ◌∷◌, ◌++◌, some, arith, ◌==◌,
  if◌then◌else◌, Bytes, Bool-cases, length, leb, append_assoc, append-nil, inc64,
}
use ultra_net.Sender.{
  UnackedItem, Sender, Disk, erase, put, track_unacked, log_data, track, mark_dead, on_link_dead,
  post_frame, pending, mark_sent, resend, resend_unacked, is_due, due, post_due, ack_timeout,
}
use ultra_net.Sender.Events.{
  BufferedMessage, RemoteProxy, frame_of, try_post, try_deliver, max_buffered,
}

-- The frames of these entries, each with its node.
pub frames_of : List UnackedItem → List (ℕ × Bytes)
frames_of [] = []
frames_of (i ∷ m) = (i.node, i.frame) ∷ frames_of m

-- The entries of a node.
pub of_node : ℕ → List UnackedItem → List UnackedItem
of_node node [] = []
of_node node (i ∷ m) = let rest = of_node node m in if i.node == node then i ∷ rest else rest

-- The same with the node of the caller.
frames_to : ℕ → List UnackedItem → List (ℕ × Bytes)
frames_to node [] = []
frames_to node (i ∷ m) = (node, i.frame) ∷ frames_to node m

resend_posted :
    (is : List UnackedItem) (s : Sender) (node now : ℕ)
    → (resend s node is now true).posted ≡ s.posted ++ frames_to node is
unfolding resend post_frame frames_to
resend_posted [] s node now = sym (append-nil s.posted)
resend_posted (i ∷ is) s node now =
    resend_posted is
      (record (post_frame s node i.frame true) {
        unacked = mark_sent i.msg_id now s.unacked;
        resent = inc64 s.resent;
      })
      node now
    ∙ append_assoc s.posted ((node, i.frame) ∷ []) (frames_to node is)

dead_frames :
    (node : ℕ) (m : List UnackedItem)
    → frames_to node (pending node (mark_dead node m)) ≡ frames_of (of_node node m)
unfolding pending mark_dead frames_to frames_of of_node
dead_frames node [] = refl
dead_frames node (i ∷ m) = elim (Bool-cases (i.node == node)) [
  | inl e ↦ ground (arith, e, dead_frames node m)
  | inr o ↦ ground (arith, o, dead_frames node m)
]

post_due_posted :
    (is : List UnackedItem) (s : Sender)
    → (post_due s is (λ _. true)).posted ≡ s.posted ++ frames_of is
unfolding post_due post_frame frames_of
post_due_posted [] s = sym (append-nil s.posted)
post_due_posted (i ∷ is) s =
    post_due_posted is (post_frame s i.node i.frame true)
    ∙ append_assoc s.posted ((i.node, i.frame) ∷ []) (frames_of is)

-- When the link to a node has died and a valid connection to it is there again, the frames of all
-- messages of the table that go to that node, those that were sent and are not acknowledged, are
-- posted to it, in the order of the table, and no others.
pub dead_link_resent :
    (s : Sender) (node now : ℕ)
    → (resend_unacked (on_link_dead s node) node now true).posted
      ≡ s.posted ++ frames_of (of_node node s.unacked)
unfolding resend_unacked on_link_dead
dead_link_resent s node now =
    resend_posted (pending node (mark_dead node s.unacked)) (on_link_dead s node) node now
    ∙ ap (λ fs. s.posted ++ fs) (dead_frames node s.unacked)

item_of : RemoteProxy → BufferedMessage → ℕ → UnackedItem
item_of p m now = record {
  msg_id = m.msg_id;
  frame = frame_of p m;
  sent_at = now;
  node = p.node;
  needs_resend = false;
}

refused_tracked :
    (p : RemoteProxy) (s s' : Sender) (m : BufferedMessage) (now : ℕ) (disk : Disk)
    → p.connected ≡ false
    → leb max_buffered (length p.buffered) ≡ true
    → (length m.payload == 0) ≡ false
    → log_data s m.msg_id (frame_of p m) disk ≡ some (s', true)
    → try_deliver p s m now disk
      ≡ some (p, track_unacked s' p.node m.msg_id (frame_of p m) now, false)
unfolding try_deliver try_post track
refused_tracked p s s' m now disk away full some_data h = ground (arith, away, full, some_data, h)

due_front :
    (i : UnackedItem) (m : List UnackedItem) (limit now : ℕ)
    → is_due limit now i ≡ true
    → due limit now (i ∷ m) ≡ i ∷ due limit now m
unfolding due
due_front i m limit now h = ground (arith, h)

-- On a proxy without a valid connection, whose buffer is full, `try_deliver` of a message with a
-- payload, which the log takes, answers false and leaves the proxy as it is; but the message is in the
-- table, and its frame is posted by the first round of `ack_timeout_loop`, over a valid connection,
-- once the time for its acknowledgement has passed.
pub refused_but_sent :
    (p : RemoteProxy) (s s' : Sender) (m : BufferedMessage) (now later limit : ℕ) (disk : Disk)
    → p.connected ≡ false
    → leb max_buffered (length p.buffered) ≡ true
    → (length m.payload == 0) ≡ false
    → log_data s m.msg_id (frame_of p m) disk ≡ some (s', true)
    → leb (limit + now) later ≡ true
    → (t : Sender) × (rest : List UnackedItem) × (try_deliver p s m now disk ≡ some (p, t, false))
      × ((ack_timeout t limit later (λ _. true)).posted
          ≡ s'.posted ++ ((p.node, frame_of p m) ∷ frames_of rest))
unfolding ack_timeout track_unacked put is_due frames_of item_of
refused_but_sent p s s' m now later limit disk away full some_data h old =
    let t = track_unacked s' p.node m.msg_id (frame_of p m) now in
    let rest = due limit later (erase m.msg_id s'.unacked) in
    (
      t,
      rest,
      refused_tracked p s s' m now disk away full some_data h,
      post_due_posted (due limit later t.unacked) _
          ∙ ap (λ fs. s'.posted ++ frames_of fs)
              (due_front (item_of p m now) (erase m.msg_id s'.unacked) limit later old),
    )
