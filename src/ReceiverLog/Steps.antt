-- ===== src/ReceiverLog/Steps.antt =====
-- Any sequence of calls of the receiver's log in which no flush fails.
use ultra_net.Prelude.{
  ℕ, ◌+◌, ◌<◌, ◌^◌, ◌≡◌, refl, sym, ◌∙◌, Bool, true, false, List, [], ◌∷◌, ◌++◌, some, arith, Bytes,
  ◌||◌, not, Bool-cases, inl, inr, All, All-append, IsByte, length,
}
use ultra_net.Log.{Frame}
use ultra_net.ReceiverLog.Index.{Key, Entry, same, Item, modify, erase, contains}
use ultra_net.ReceiverLog.State.{
  PendingRec, State, with_index, append_pending, new_entry, buffer_data, buffer_handled,
  set_enqueued, mark_executed, drop_key, take_for_actor, put_enqueued, put_executed, put_reply_conn,
  handled_durable, pending_handled, mark_taken,
}
use ultra_net.ReceiverLog.Persist.{
  persist, pends, persist-modify, persist-mark_taken, persist-erase, persist-emplace,
}
use ultra_net.ReceiverLog.Durable.{IsPending, IsDurable}

pends-append : (k : Key) (rs qs : List PendingRec) → pends k (rs ++ qs) ≡ (pends k rs || pends k qs)
unfolding pends
pends-append k [] qs = refl
pends-append k (r ∷ rs) qs = ground (arith, pends-append k rs qs)

pends_last : (j : Key) (r : PendingRec) → r.type ≡ 1 → same j r.id ≡ true → pends j (r ∷ []) ≡ true
unfolding pends
pends_last j r t e = ground (arith, t, e)

-- An index that says less of what is persisted, or the same.
with_index-IsDurable :
    (s : State) (fs : List Frame) (m : List Item)
    → IsDurable s fs
    → ((k : Key) (b : Bool) → persist k m ≡ some b → persist k s.index ≡ some b)
    → IsDurable (with_index s m) fs
unfolding with_index
with_index-IsDurable s fs m v less = record {
  file = v.file;
  frames = v.frames;
  pending = v.pending;
  recorded = λ k p. v.recorded k (less k true p);
  waiting = λ k p. v.waiting k (less k false p);
}

modify-IsDurable :
    (s : State) (fs : List Frame) (k : Key) (f : Entry → Entry)
    → IsDurable s fs
    → ((e : Entry) → (f e).persisted ≡ e.persisted)
    → IsDurable (with_index s (modify k f s.index)) fs
modify-IsDurable s fs k f v keeps =
    with_index-IsDurable s fs (modify k f s.index) v
      (λ j b p. sym (persist-modify k j f s.index keeps) ∙ p)

append_pending-IsDurable :
    (s : State) (fs : List Frame) (now : ℕ) (r : PendingRec)
    → IsDurable s fs
    → IsPending r
    → IsDurable (append_pending s now r) fs
unfolding append_pending
append_pending-IsDurable s fs now r v p = record {
  file = v.file;
  frames = v.frames;
  pending = All-append IsPending s.pending (r ∷ []) v.pending (p, tt);
  recorded = v.recorded;
  waiting = λ k q. ground (arith, pends-append k s.pending (r ∷ []), v.waiting k q);
}

pub set_enqueued-IsDurable :
    (s : State) (fs : List Frame) (k : Key) (b : Bool)
    → IsDurable s fs
    → IsDurable (set_enqueued s k b) fs
unfolding set_enqueued put_enqueued
set_enqueued-IsDurable s fs k b v = modify-IsDurable s fs k (put_enqueued b) v (λ e. refl)

pub mark_executed-IsDurable :
    (s : State) (fs : List Frame) (k : Key) → IsDurable s fs → IsDurable (mark_executed s k) fs
unfolding mark_executed put_executed
mark_executed-IsDurable s fs k v = modify-IsDurable s fs k put_executed v (λ e. refl)

pub drop_key-IsDurable :
    (s : State) (fs : List Frame) (k : Key) → IsDurable s fs → IsDurable (drop_key s k) fs
unfolding drop_key
drop_key-IsDurable s fs k v =
    with_index-IsDurable s fs (erase k s.index) v (λ j b p. persist-erase k j s.index {b = b} p)

pub take_for_actor-IsDurable :
    (s : State) (fs : List Frame) (type name : Bytes)
    → IsDurable s fs
    → IsDurable (take_for_actor s type name).0 fs
unfolding take_for_actor
take_for_actor-IsDurable s fs type name v =
    with_index-IsDurable s fs (mark_taken type name s.index) v
      (λ j b p. sym (persist-mark_taken type name j s.index) ∙ p)

pub buffer_handled-IsDurable :
    (s : State) (fs : List Frame) (now : ℕ) (k : Key) (conn : ℕ)
    → IsDurable s fs
    → k.sender < 2 ^ 64
    → k.msg_id < 2 ^ 64
    → IsDurable (buffer_handled s now k conn) fs
unfolding buffer_handled put_reply_conn
buffer_handled-IsDurable s fs now k conn v a b =
    let marked = modify-IsDurable s fs k (put_reply_conn conn) v (λ e. refl) in
    elim (Bool-cases (not (contains k s.index))) [
      | inl t ↦ rw t v
      | inr o ↦ elim (Bool-cases (handled_durable s k || pending_handled k s.pending)) [
        | inl t ↦ rw (o, t) marked
        | inr u ↦
            rw (o, u)
              (append_pending-IsDurable _ fs now _ marked (record {
                type = omega arith;
                sender = a;
                msg_id = b;
                bytes = tt;
                size = omega arith;
              }))
      ]
    ]

pub buffer_data-IsDurable :
    (s : State) (fs : List Frame) (now : ℕ) (k : Key) (frame : Bytes) (conn : ℕ)
    → IsDurable s fs
    → k.sender < 2 ^ 64
    → k.msg_id < 2 ^ 64
    → All IsByte frame
    → length frame + 29 < 2 ^ 32
    → IsDurable (buffer_data s now k frame conn).0 fs
unfolding buffer_data append_pending with_index new_entry
buffer_data-IsDurable s fs now k frame conn v a b bytes size =
    let r : PendingRec = record { type = 1; id = k; reply_conn_id = conn; body = frame } in
    let p : IsPending r = record {
      type = omega arith;
      sender = a;
      msg_id = b;
      bytes = bytes;
      size = size;
    } in
    elim (Bool-cases (contains k s.index)) [
      | inl t ↦ rw t v
      | inr o ↦ rw o (record {
        file = v.file;
        frames = v.frames;
        pending = All-append IsPending s.pending (r ∷ []) v.pending (p, tt);
        recorded = λ j q. elim (persist-emplace k j (new_entry frame conn) s.index {b = true} q) [
          | inl g ↦ v.recorded j g
          | inr (same, e) ↦ absurd (cc e)
        ];
        waiting = λ j q. elim (persist-emplace k j (new_entry frame conn) s.index {b = false} q) [
          | inl g ↦ ground (arith, pends-append j s.pending (r ∷ []), v.waiting j g)
          | inr (same, e) ↦
              ground (arith, pends-append j s.pending (r ∷ []), pends_last j r refl same)
        ];
      })
    ]
