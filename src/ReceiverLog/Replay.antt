-- ===== src/ReceiverLog/Replay.antt =====
-- The receiver's log: no message is taken twice, by a retransmission or by a replay.
use ultra_net.Prelude.{
  ℕ, ◌≡◌, refl, true, false, List, [], ◌∷◌, arith, Bytes, Bool-cases, Option-cases, inl, inr,
}
use ultra_net.ReceiverLog.Index.{Key, Entry, Item, find, emplace, contains, same_refl}
use ultra_net.ReceiverLog.State.{
  State, with_index, append_pending, new_entry, buffer_data, takes, is_waiting, put_enqueued,
  take_items, mark_taken, take_for_actor,
}

takes_taken : (type name : Bytes) (e : Entry) → takes type name (put_enqueued true e) ≡ false
unfolding takes is_waiting put_enqueued
takes_taken type name e = ground arith

take_items-mark_taken :
    (type name : Bytes) (m : List Item) → take_items type name (mark_taken type name m) ≡ []
unfolding take_items mark_taken
take_items-mark_taken type name [] = refl
take_items-mark_taken type name (i ∷ m) = elim (Bool-cases (takes type name i.entry)) [
  | inl t ↦ ground (arith, t, takes_taken type name i.entry, take_items-mark_taken type name m)
  | inr o ↦ ground (arith, o, take_items-mark_taken type name m)
]

-- What `take_for_actor` gave for an actor it does not give again at once.
pub take_for_actor_twice :
    (s : State) (type name : Bytes)
    → (take_for_actor (take_for_actor s type name).0 type name).1 ≡ []
unfolding take_for_actor with_index
take_for_actor_twice s type name = take_items-mark_taken type name s.index

contains-emplace_self : (k : Key) (e : Entry) (m : List Item) → contains k (emplace k e m) ≡ true
unfolding contains emplace find
contains-emplace_self k e m = elim (Option-cases (find k m)) [
  | inl n ↦ ground (arith, n, same_refl k)
  | inr (x, n) ↦ ground (arith, n)
]

-- Behind a `buffer_data` of a message, whichever way it went, another of the same message answers false
-- and changes nothing, whatever its frame, its connection and the time.
pub buffer_data_twice :
    (s : State) (now now2 : ℕ) (k : Key) (frame frame2 : Bytes) (conn conn2 : ℕ)
    → let s' = (buffer_data s now k frame conn).0 in
      buffer_data s' now2 k frame2 conn2 ≡ (s', false)
unfolding buffer_data append_pending with_index
buffer_data_twice s now now2 k frame frame2 conn conn2 = elim (Bool-cases (contains k s.index)) [
  | inl t ↦ ground (arith, t)
  | inr o ↦ ground (arith, o, contains-emplace_self k (new_entry frame conn) s.index)
]
