-- ===== src/Delivery/Finish.antt =====
-- Delivery.antt: the end of a handler.
use ultra_net.Prelude.{
  ℕ, suc, ◌≡◌, refl, sym, subst, ap, ◌∙◌, ◌⊎◌, inl, inr, true, false, Option, none, some, arith,
  if◌then◌else◌, Bool-cases, Option-cases,
}
use ultra_net.ReceiverLog.Index.{
  Key, Entry, same, same_eq, find, modify, erase, find-modify_ne, find-erase_self, find-erase_ne,
}
use ultra_net.ReceiverLog.State.{
  with_index, put_executed, mark_executed, drop_key, buffer_handled, handled_durable,
}
use ultra_net.Delivery.{
  Node, DedupState, in_progress, completed, DedupItem, lookup, complete, with_rcv, post_remote_ack,
}
use ultra_net.Delivery
use ultra_net.Delivery.Accept.{
  Io, flush, DeliverResult, has_thrown, finish_table, finish_logged, finish_remote_delivery,
}
use ultra_net.Delivery.Push.{pump_receiver_waiting}
use ultra_net.Delivery.Distinct.{modify-IsDistinct, erase-IsDistinct, buffer_handled-IsDistinct}
use ultra_net.Delivery.Held.{is_held, is_done, Owns, buffer_handled-IsBenign}
use ultra_net.Delivery.Once.{mails, runs, IsOnce, AllOnce, AllOnce-benign, at_key}
use ultra_net.Delivery.Table.{
  lookup-erase_self, lookup-erase_ne, erase-IsUnique, lookup-complete_self, lookup-complete_ne,
  complete-IsUnique,
}
use ultra_net.Delivery.Enqueue.{post_ack-AllOnce, pump-AllOnce, flush-AllOnce}

runs_found : (t : Option DedupState) → runs t ≡ 1 → t ≡ some in_progress
unfolding runs
runs_found none h = absurd (omega (arith, h))
runs_found (some in_progress) h = refl
runs_found (some completed) h = absurd (omega (arith, h))

-- The entry of a message whose handler has ended, and of one whose handler has thrown.
ended-IsOnce :
    {k : Key} {e : Entry} {t t' : Option DedupState} {h r d d' : ℕ}
    → r ≡ 1
    → runs t' ≡ 0
    → d' ≡ suc d
    → IsOnce k (some e) t h r d
    → IsOnce k (some (put_executed e)) t' h 0 d'
unfolding put_executed is_held is_done Owns
ended-IsOnce one none_runs more v = record {
  alone = omega (arith, v.alone, one);
  held = inl (omega (arith, v.alone, one));
  running = none_runs;
  once = inr (ground (arith, v.held, v.once, one, more), ground (arith, v.held, one));
  owns = v.owns;
}

missing-IsOnce :
    {k : Key} {t : Option DedupState} {h r d : ℕ} {X : Type 0} → r ≡ 1 → IsOnce k none t h r d → X
unfolding is_held
missing-IsOnce one v = absurd (ground (arith, v.held, one))

pub held_not_done : (e : Option Entry) → is_held e ≡ true → is_done e ≡ false
unfolding is_held is_done
held_not_done none h = absurd (cc h)
held_not_done (some e) h = ground (arith, h)

not_ended :
    {k : Key} {e : Option Entry} {t : Option DedupState} {h r d : ℕ}
    → r ≡ 1
    → IsOnce k e t h r d
    → d ≡ 0
not_ended {e} one v = elim v.once [
  | inl z ↦ z
  | inr (_, done) ↦ elim v.held [
    | inl z ↦ absurd (omega (arith, z, one))
    | inr held ↦ absurd (cc (done, held_not_done e held))
  ]
]

thrown-IsOnce :
    {k : Key} {e : Option Entry} {t t' : Option DedupState} {h r d : ℕ}
    → r ≡ 1
    → runs t' ≡ 0
    → IsOnce k e t h r d
    → IsOnce k none t' h 0 d
unfolding is_held is_done Owns
thrown-IsOnce {e} one none_runs v = record {
  alone = omega (arith, v.alone, one);
  held = inl (omega (arith, v.alone, one));
  running = none_runs;
  once = inl (not_ended one v);
  owns = tt;
}

no_run : {t : Option DedupState} → t ≡ some completed → runs t ≡ 0
unfolding runs
no_run e = ap runs e

runs_none : runs none ≡ 0
unfolding runs
runs_none = refl

same-IsOnce :
    (k : Key) {e e' : Option Entry} {t t' : Option DedupState} {h r r' d d' : ℕ}
    → e ≡ e'
    → t ≡ t'
    → r ≡ r'
    → d ≡ d'
    → IsOnce k e t h r d
    → IsOnce k e' t' h r' d'
same-IsOnce k e t r_eq d_eq v = record {
  alone = omega (arith, v.alone, r_eq);
  held = elim v.held [
    | inl z ↦ inl (omega (arith, z, r_eq))
    | inr x ↦ inr (ap is_held (sym e) ∙ x)
  ];
  running = ap runs (sym t) ∙ (v.running ∙ r_eq);
  once = elim v.once [
    | inl z ↦ inl (sym d_eq ∙ z)
    | inr (o, x) ↦ inr (sym d_eq ∙ o, ap is_done (sym e) ∙ x)
  ];
  owns = subst (Owns k) e v.owns;
}

logged_cases :
    (m m' : Node) (j : Key) (conn : ℕ) (io : Io)
    → finish_logged m j conn io ≡ some m'
    → (pump_receiver_waiting (post_remote_ack (with_rcv m (mark_executed m.rcv j)) conn j.msg_id)
        ≡ m')
      ⊎ ((x : Node) × (flush
              (with_rcv
                (with_rcv m (mark_executed m.rcv j))
                (buffer_handled (mark_executed m.rcv j) io.now j conn))
              io
            ≡ some x)
          × (pump_receiver_waiting x ≡ m'))
unfolding finish_logged with_rcv
logged_cases m m' j conn io e =
    let marked = with_rcv m (mark_executed m.rcv j) in
    elim (Bool-cases (handled_durable (mark_executed m.rcv j) j)) [
      | inl t ↦ inl (ground (arith, t, e))
      | inr o ↦
          elim (Option-cases
            (flush (with_rcv marked (buffer_handled (mark_executed m.rcv j) io.now j conn)) io)) [
              | inl n ↦ absurd (ground (arith, o, n, e))
              | inr (x, f) ↦ inr (x, f, ground (arith, o, f, e))
            ]
    ]

finish_logged-AllOnce :
    (m m' : Node) (j : Key) (conn : ℕ) (io : Io) (r d : Key → ℕ)
    → AllOnce (with_rcv m (mark_executed m.rcv j)) r d
    → finish_logged m j conn io ≡ some m'
    → AllOnce m' r d
unfolding with_rcv
finish_logged-AllOnce m m' j conn io r d w e = elim (logged_cases m m' j conn io e) [
  | inl p ↦
      subst (λ x. AllOnce x r d) p (pump-AllOnce _ r d (post_ack-AllOnce _ conn j.msg_id r d w))
  | inr (x, f, p) ↦
      subst (λ y. AllOnce y r d) p
        (pump-AllOnce x r d (
          flush-AllOnce _ x io r d
            (AllOnce-benign _ (buffer_handled (mark_executed m.rcv j) io.now j conn) r d
              (λ k. buffer_handled-IsBenign (mark_executed m.rcv j) io.now j k conn)
              (buffer_handled-IsDistinct (mark_executed m.rcv j) io.now j conn) w)
            f))
]

pub finish_thrown :
    (n m : Node) (j : Key) (conn : ℕ) (result : DeliverResult) (io : Io)
    → n.logging ≡ true
    → has_thrown result ≡ true
    → finish_remote_delivery n j conn result io ≡ some m
    → with_rcv (record n { dedup = Delivery.erase j n.dedup }) (drop_key n.rcv j) ≡ m
unfolding finish_remote_delivery finish_table
finish_thrown n m j conn result io l t e = ground (arith, l, t, e)

finish_ended :
    (n m : Node) (j : Key) (conn : ℕ) (result : DeliverResult) (io : Io)
    → n.logging ≡ true
    → has_thrown result ≡ false
    → lookup j n.dedup ≡ some in_progress
    → finish_remote_delivery n j conn result io ≡ some m
    → finish_logged (record n { dedup = complete j n.dedup }) j conn io ≡ some m
unfolding finish_remote_delivery finish_table
finish_ended n m j conn result io l o f e = ground (arith, l, o, f, e)

-- One handler less of `j`, which ran.
module _ (n : Node) (j : Key) (r r' d : Key → ℕ) (v : AllOnce n r d) (one : r j ≡ 1)
    (own : r' j ≡ 0) (other : (k : Key) → same k j ≡ false → r' k ≡ r k) where
  found : lookup j n.dedup ≡ some in_progress
  found = runs_found (lookup j n.dedup) ((v.each j).running ∙ one)

  pub executed-AllOnce :
      (d' : Key → ℕ)
      → d' j ≡ suc (d j)
      → ((k : Key) → same k j ≡ false → d' k ≡ d k)
      → AllOnce (with_rcv (record n { dedup = complete j n.dedup }) (mark_executed n.rcv j)) r' d'
  unfolding with_rcv mark_executed with_index
  executed-AllOnce d' more rest = record {
    logs = v.logs;
    unique = complete-IsUnique j n.dedup v.unique;
    distinct = modify-IsDistinct j put_executed n.rcv.index v.distinct;
    each = λ k. elim (Bool-cases (same k j)) [
      | inr o ↦
          same-IsOnce k (sym (find-modify_ne j k put_executed n.rcv.index o))
            (sym (lookup-complete_ne j k n.dedup o)) (sym (other k o)) (sym (rest k o)) (v.each k)
      | inl t ↦
          subst
            (λ i.
              IsOnce i (find i (modify j put_executed n.rcv.index)) (lookup i (complete j n.dedup))
                (mails i n.mail) (r' i) (d' i))
            (sym (same_eq k j t))
            (subst
              (λ x.
                IsOnce j (find j (modify j put_executed n.rcv.index))
                  (lookup j (complete j n.dedup)) (mails j n.mail) x (d' j))
              (sym own)
              (at_key (λ e. IsOnce j e (lookup j n.dedup) (mails j n.mail) (r j) (d j))
                (λ e. IsOnce j e (lookup j (complete j n.dedup)) (mails j n.mail) 0 (d' j)) j
                put_executed n.rcv.index (λ w. missing-IsOnce one w)
                (λ e w. ended-IsOnce one (no_run (lookup-complete_self j n.dedup found)) more w)
                (v.each j)))
    ];
  }

  pub thrown-AllOnce :
      AllOnce (with_rcv (record n { dedup = Delivery.erase j n.dedup }) (drop_key n.rcv j)) r' d
  unfolding with_rcv drop_key with_index
  thrown-AllOnce = record {
    logs = v.logs;
    unique = erase-IsUnique j n.dedup v.unique;
    distinct = erase-IsDistinct j n.rcv.index v.distinct;
    each = λ k. elim (Bool-cases (same k j)) [
      | inr o ↦
          same-IsOnce k (sym (find-erase_ne j k n.rcv.index o))
            (sym (lookup-erase_ne j k n.dedup o)) (sym (other k o)) refl (v.each k)
      | inl t ↦
          subst
            (λ i.
              IsOnce i (find i (erase j n.rcv.index)) (lookup i (Delivery.erase j n.dedup))
                (mails i n.mail) (r' i) (d i))
            (sym (same_eq k j t))
            (subst
              (λ e. IsOnce j e (lookup j (Delivery.erase j n.dedup)) (mails j n.mail) (r' j) (d j))
              (sym (find-erase_self j n.rcv.index))
              (subst
                (λ x. IsOnce j none (lookup j (Delivery.erase j n.dedup)) (mails j n.mail) x (d j))
                (sym own)
                (thrown-IsOnce one (ap runs (lookup-erase_self j n.dedup) ∙ runs_none) (v.each j))))
    ];
  }

  same_ended :
      {m : Node} (d' : Key → ℕ)
      → d' j ≡ d j
      → ((k : Key) → same k j ≡ false → d' k ≡ d k)
      → AllOnce m r' d
      → AllOnce m r' d'
  same_ended {m} d' here there w = record {
    logs = w.logs;
    unique = w.unique;
    distinct = w.distinct;
    each = λ k. same-IsOnce k refl refl refl (d_eq k) (w.each k);
  }
    where
      d_eq : (k : Key) → d k ≡ d' k
      d_eq k = elim (Bool-cases (same k j)) [
        | inl t ↦ subst (λ i. d i ≡ d' i) (sym (same_eq k j t)) (sym here)
        | inr o ↦ sym (there k o)
      ]

  -- The end of the handler of a message, if the calls of `write` return.
  pub finish-AllOnce :
      (m : Node) (conn : ℕ) (result : DeliverResult) (io : Io) (d' : Key → ℕ)
      → d' j ≡ (if has_thrown result then d j else suc (d j))
      → ((k : Key) → same k j ≡ false → d' k ≡ d k)
      → finish_remote_delivery n j conn result io ≡ some m
      → AllOnce m r' d'
  finish-AllOnce m conn result io d' more rest e = elim (Bool-cases (has_thrown result)) [
    | inl t ↦
        subst (λ x. AllOnce x r' d') (finish_thrown n m j conn result io v.logs t e)
          (same_ended d' (ground (arith, t, more)) rest thrown-AllOnce)
    | inr o ↦
        finish_logged-AllOnce _ m j conn io r' d'
          (executed-AllOnce d' (ground (arith, o, more)) rest)
          (finish_ended n m j conn result io v.logs o found e)
  ]
