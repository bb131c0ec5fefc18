-- ===== src/Sender/Acked.antt =====
-- Sender.antt: only its acknowledgement takes a message from the table.
use ultra_net.Prelude.{
  ℕ, ◌≡◌, sym, subst, inl, inr, Bool, true, false, List, [], ◌∷◌, some, arith, ◌==◌, if◌then◌else◌,
  Bytes, Bool-cases, Option-cases, All, if_intro, length, leb,
}
use ultra_net.RemoteLog.{RemoteLog, Answer, waits, answers, append_data, append_ack}
use ultra_net.Sender.{
  UnackedItem, Sender, Disk, erase, track_unacked, logged, log_data, track, log_ack, note_ack,
  note_send_failed, on_link_dead, post_frame, pending, resend, resend_unacked, due, post_due,
  ack_timeout,
}
use ultra_net.Sender.Events.{
  BufferedMessage, RemoteProxy, frame_of, try_post, try_deliver, flush_buffered, connect_and_flush,
  Event, delivers, connects, acked, link_dead, reconnected, timeout, step, run,
}
use ultra_net.Sender.Kept.{
  Holds, mark_failed-Holds, mark_dead-Holds, mark_sent-Holds, restamp-Holds, erase-Holds, put-Holds,
}

logged_unacked :
    (s s' : Sender) (x : RemoteLog × Answer) (b : Bool)
    → logged s x ≡ some (s', b)
    → s'.unacked ≡ s.unacked
unfolding logged
logged_unacked s s' (l, waits) b h = absurd (cc h)
logged_unacked s s' (l, answers a) b h = ground (arith, h)

pub log_data_unacked :
    (s s' : Sender) (id : ℕ) (frame : Bytes) (disk : Disk) (b : Bool)
    → log_data s id frame disk ≡ some (s', b)
    → s'.unacked ≡ s.unacked
unfolding log_data
log_data_unacked s s' id frame disk b h = elim (Option-cases s.log) [
  | inl e ↦ ground (arith, e, h)
  | inr (l, e) ↦
      logged_unacked s s' (append_data l id frame disk.writes disk.synced) b (ground (arith, e, h))
]

pub log_ack_unacked :
    (s s' : Sender) (id : ℕ) (disk : Disk) (b : Bool)
    → log_ack s id disk ≡ some (s', b)
    → s'.unacked ≡ s.unacked
unfolding log_ack
log_ack_unacked s s' id disk b h = elim (Option-cases s.log) [
  | inl e ↦ ground (arith, e, h)
  | inr (l, e) ↦
      logged_unacked s s' (append_ack l id disk.writes disk.synced) b (ground (arith, e, h))
]

module _ (id : ℕ) (frame : Bytes) (node : ℕ) where
  -- A message with this id is this message again.
  abbrev pub Same : RemoteProxy → BufferedMessage → Type 0
  Same p m = (id == m.msg_id) ≡ true → (frame_of p m ≡ frame) × (p.node ≡ node)

  abbrev Kept : Sender → Type 0
  Kept s = Holds id frame node s.unacked

  track_cases :
      (s s' : Sender) (n k : ℕ) (f : Bytes) (now : ℕ) (disk : Disk) (b : Bool)
      → track s n k f now disk ≡ some (s', b)
      → ((id == k) ≡ true → (f ≡ frame) × (n ≡ node))
      → Kept s
      → Kept s'
  unfolding track track_unacked
  track_cases s s' n k f now disk b h own v = elim (Option-cases (log_data s k f disk)) [
    | inl e ↦ absurd (ground (arith, e, h))
    | inr ((t, ok), e) ↦
        let same = log_data_unacked s t k f disk ok e in
        let v' : Kept t = subst (Holds id frame node) (sym same) v in
        elim (Bool-cases ok) [
          | inr o ↦ subst Kept {x = t} {y = s'} (ground (arith, e, o, h)) v'
          | inl o ↦
              subst Kept {x = track_unacked t n k f now} {y = s'} (ground (arith, e, o, h))
                (put-Holds id frame node _ t.unacked own v')
        ]
  ]

  post_frame-Kept :
      (s : Sender) (n : ℕ) (f : Bytes) (ok : Bool) → Kept s → Kept (post_frame s n f ok)
  unfolding post_frame
  post_frame-Kept s n f ok v = if_intro Kept ok _ _ (λ _. v) (λ _. v)

  failed-Kept : (s : Sender) (k : ℕ) → Kept s → Kept (note_send_failed s k)
  unfolding note_send_failed
  failed-Kept s k v = mark_failed-Holds id frame node k s.unacked v

  try_post-Kept :
      (p : RemoteProxy) (s : Sender) (m : BufferedMessage) → Kept s → Kept (try_post p s m).1
  unfolding try_post
  try_post-Kept p s m v =
      if_intro {X = RemoteProxy × Sender × Bool} (λ x. Kept x.1) p.connected _ _
        (λ _. post_frame-Kept s p.node (frame_of p m) true v)
        (λ _.
          if_intro {X = RemoteProxy × Sender × Bool} (λ x. Kept x.1) (leb 1024 (length p.buffered))
            _ _ (λ _. v) (λ _. v))

  try_deliver-Kept :
      (p : RemoteProxy) (s : Sender) (m : BufferedMessage) (now : ℕ) (disk : Disk)
      (x : RemoteProxy × Sender × Bool)
      → Same p m
      → try_deliver p s m now disk ≡ some x
      → Kept s
      → Kept x.1
  unfolding try_deliver
  try_deliver-Kept p s m now disk x own h v = elim (Bool-cases (length m.payload == 0)) [
    | inl e ↦ subst (λ y. Kept y.1) {x = (p, s, false)} {y = x} (ground (arith, e, h)) v
    | inr e ↦ elim (Option-cases (track s p.node m.msg_id (frame_of p m) now disk)) [
      | inl n ↦ absurd (ground (arith, e, n, h))
      | inr ((t, ok), n) ↦
          let v' = track_cases s t p.node m.msg_id (frame_of p m) now disk ok n own v in
          elim (Bool-cases ok) [
            | inr o ↦
                subst (λ y. Kept y.1) {x = (p, t, false)} {y = x} (ground (arith, e, n, o, h)) v'
            | inl o ↦
                subst (λ y. Kept y.1) {x = try_post p t m} {y = x} (ground (arith, e, n, o, h))
                  (try_post-Kept p t m v')
          ]
    ]
  ]

  flush_buffered-Kept :
      (p : RemoteProxy) (s t : Sender) (ms : List BufferedMessage) (now : ℕ) (disks : List Disk)
      (ok : Bool)
      → All (Same p) ms
      → flush_buffered p s ms now disks ok ≡ some t
      → Kept s
      → Kept t
  unfolding flush_buffered
  flush_buffered-Kept p s t [] now disks ok own h v =
      subst Kept {x = s} {y = t} (ground (arith, h)) v
  flush_buffered-Kept p s t (m ∷ ms) now [] ok own h v = absurd (cc h)
  flush_buffered-Kept p s t (m ∷ ms) now (d ∷ ds) ok (o, own) h v =
      elim (Option-cases (track s p.node m.msg_id (frame_of p m) now d)) [
        | inl n ↦ absurd (ground (arith, n, h))
        | inr ((u, b), n) ↦
            let v' = track_cases s u p.node m.msg_id (frame_of p m) now d b n o v in
            elim (Bool-cases b) [
              | inr f ↦
                  flush_buffered-Kept p (note_send_failed u m.msg_id) t ms now ds ok own
                    (ground (arith, n, f, h)) (failed-Kept u m.msg_id v')
              | inl f ↦
                  let sent = post_frame u p.node (frame_of p m) ok in
                  let failed = note_send_failed u m.msg_id in
                  flush_buffered-Kept p (if ok then sent else failed) t ms now ds ok own
                    (ground (arith, n, f, h))
                    (if_intro Kept ok sent failed
                      (λ _. post_frame-Kept u p.node (frame_of p m) ok v')
                      (λ _. failed-Kept u m.msg_id v'))
            ]
      ]

  note_ack-Kept :
      (s t : Sender) (k : ℕ) (disk : Disk)
      → (id == k) ≡ false
      → note_ack s k disk ≡ some t
      → Kept s
      → Kept t
  unfolding note_ack
  note_ack-Kept s t k disk other h v = elim (Option-cases (log_ack s k disk)) [
    | inl e ↦ absurd (ground (arith, e, h))
    | inr ((u, ok), e) ↦
        let same = log_ack_unacked s u k disk ok e in
        let v' : Kept u = subst (Holds id frame node) (sym same) v in
        elim (Bool-cases ok) [
          | inr o ↦ subst Kept {x = u} {y = t} (ground (arith, e, o, h)) v'
          | inl o ↦
              subst Kept {x = record u { unacked = erase k u.unacked }} {y = t}
                (ground (arith, e, o, h)) (erase-Holds id frame node k u.unacked other v')
        ]
  ]

  resend-Kept :
      (is : List UnackedItem) (s : Sender) (n now : ℕ) (ok : Bool)
      → Kept s
      → Kept (resend s n is now ok)
  unfolding resend
  resend-Kept [] s n now ok v = v
  resend-Kept (i ∷ is) s n now ok v =
      resend-Kept is _ n now ok (
        if_intro Kept ok _ _ (λ _. mark_sent-Holds id frame node i.msg_id now s.unacked v) (λ _. v))

  post_due-Kept :
      (is : List UnackedItem) (s : Sender) (ok : ℕ → Bool) → Kept s → Kept (post_due s is ok)
  unfolding post_due
  post_due-Kept [] s ok v = v
  post_due-Kept (i ∷ is) s ok v =
      post_due-Kept is _ ok (post_frame-Kept s i.node i.frame (ok i.node) v)

  -- The event is no acknowledgement of the message, and no other message with its id.
  unfoldable pub Leaves : Event → Type 0
  Leaves (delivers p m now disk) = Same p m
  Leaves (connects p now disks ok) = All (Same p) p.buffered
  Leaves (acked k disk) = (id == k) ≡ false
  Leaves (link_dead n) = Unit
  Leaves (reconnected n now ok) = Unit
  Leaves (timeout limit now ok) = Unit

  step-Kept : (s t : Sender) (e : Event) → Leaves e → step s e ≡ some t → Kept s → Kept t
  unfolding step Leaves connect_and_flush resend_unacked ack_timeout on_link_dead
  step-Kept s t (delivers p m now disk) own h v = elim (Option-cases (try_deliver p s m now disk)) [
    | inl n ↦ absurd (ground (arith, n, h))
    | inr (x, n) ↦
        subst Kept {x = x.1} {y = t} (ground (arith, n, h))
          (try_deliver-Kept p s m now disk x own n v)
  ]
  step-Kept s t (connects p now disks ok) own h v =
      flush_buffered-Kept p s t p.buffered now disks ok own h v
  step-Kept s t (acked k disk) other h v = note_ack-Kept s t k disk other h v
  step-Kept s t (link_dead n) l h v =
      subst Kept {x = on_link_dead s n} {y = t} (ground (arith, h))
        (mark_dead-Holds id frame node n s.unacked v)
  step-Kept s t (reconnected n now ok) l h v =
      subst Kept {x = resend_unacked s n now ok} {y = t} (ground (arith, h))
        (resend-Kept (pending n s.unacked) s n now ok v)
  step-Kept s t (timeout limit now ok) l h v =
      subst Kept {x = ack_timeout s limit now ok} {y = t} (ground (arith, h)) (
        post_due-Kept (due limit now s.unacked) _ ok
          (restamp-Holds id frame node limit now s.unacked v))

  -- If the table has a message, with its frame and its node, then it still has it, with the same
  -- frame and node, after any events that run through, a dead link, a resend or a timeout among them,
  -- in which the message is not acknowledged and no other message comes with its id.
  pub kept_until_acked :
      (s t : Sender) (es : List Event)
      → run s es ≡ some t
      → All Leaves es
      → Holds id frame node s.unacked
      → Holds id frame node t.unacked
  unfolding run
  kept_until_acked s t [] h leaves v = subst Kept {x = s} {y = t} (ground (arith, h)) v
  kept_until_acked s t (e ∷ es) h (l, leaves) v = elim (Option-cases (step s e)) [
    | inl n ↦ absurd (ground (arith, n, h))
    | inr (u, n) ↦ kept_until_acked u t es (ground (arith, n, h)) leaves (step-Kept s u e l n v)
  ]
