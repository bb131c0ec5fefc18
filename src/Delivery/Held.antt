-- ===== src/Delivery/Held.antt =====
-- Delivery.antt: what the entry of a message in the receiver's log says of it, and what the operations
-- of the log leave of that.
use ultra_net.Prelude.{
  ℕ, ◌≡◌, sym, subst, inl, inr, Bool, true, false, List, Option, none, some, arith, ◌&&◌, not,
  if◌then◌else◌, Bytes, Bool-cases, Option-cases,
}
use ultra_net.Wire.{Routed, unpack_routed}
use ultra_net.ReceiverLog.Index.{
  Key, Entry, Item, same, same_eq, find, modify, emplace, contains, find-modify_self,
  find-modify_ne, find-modify_none, find-emplace_self, find-emplace_ne,
}
use ultra_net.ReceiverLog.State.{
  State, with_index, append_pending, new_entry, buffer_data, buffer_handled, put_reply_conn,
}
use ultra_net.Delivery.Accept.{key_of_routed}

-- The message is in a mailbox or being handled; it has been handled.
unfoldable pub is_held : Option Entry → Bool
is_held none = false
is_held (some e) = e.persisted && (e.enqueued && not e.executed)

unfoldable pub is_done : Option Entry → Bool
is_done none = false
is_done (some e) = e.persisted && e.executed

-- The frame is that of a message with this key, if it is one of a message at all.
unfoldable pub OwnFrame : Key → Bytes → Type 0
OwnFrame k frame = (m : Routed) → unpack_routed frame ≡ some m → key_of_routed m ≡ k

unfoldable pub Owns : Key → Option Entry → Type 0
Owns k none = Unit
Owns k (some e) = OwnFrame k e.frame

-- A change of an entry that takes nothing from a message that is held or was handled.
pub record IsBenign (k : Key) (e e' : Option Entry) : Type 0 where
  pub holds : is_held e ≡ true → is_held e' ≡ true
  pub done : is_done e ≡ true → is_done e' ≡ true
  pub owns : Owns k e → Owns k e'

pub refl-IsBenign : (k : Key) (e : Option Entry) → IsBenign k e e
refl-IsBenign k e = record { holds = λ h. h; done = λ h. h; owns = λ h. h }

pub trans-IsBenign :
    {k : Key} {a b c : Option Entry} → IsBenign k a b → IsBenign k b c → IsBenign k a c
trans-IsBenign u v = record {
  holds = λ h. v.holds (u.holds h);
  done = λ h. v.done (u.done h);
  owns = λ h. v.owns (u.owns h);
}

pub branch-IsBenign :
    {k : Key} {e : Option Entry} (b : Bool) (m m' : List Item)
    → IsBenign k e (find k m)
    → IsBenign k e (find k m')
    → IsBenign k e (find k (if b then m else m'))
branch-IsBenign true m m' u v = u
branch-IsBenign false m m' u v = v

pub absent-IsBenign : {k : Key} {e : Option Entry} → Owns k e → IsBenign k none e
unfolding is_held is_done
absent-IsBenign {e} o = record {
  holds = λ h. absurd (cc h);
  done = λ h. absurd (cc h);
  owns = λ h. o;
}

pub modify-IsBenign :
    (j k : Key) (f : Entry → Entry) (m : List Item)
    → ((e : Entry) → IsBenign k (some e) (some (f e)))
    → IsBenign k (find k m) (find k (modify j f m))
modify-IsBenign j k f m each = elim (Bool-cases (same k j)) [
  | inr o ↦
      subst (IsBenign k (find k m)) (sym (find-modify_ne j k f m o)) (refl-IsBenign k (find k m))
  | inl t ↦ elim (Option-cases (find k m)) [
    | inl n ↦
        subst (λ m'. IsBenign k (find k m) (find k m'))
          (sym (find-modify_none j f m (subst (λ i. find i m ≡ none) (same_eq k j t) n)))
          (refl-IsBenign k (find k m))
    | inr (e, s) ↦
        subst (λ x. IsBenign k x (find k (modify j f m))) (sym s)
          (subst (IsBenign k (some e))
            (sym (
              subst (λ i. find i (modify j f m) ≡ some (f e)) (sym (same_eq k j t))
                (find-modify_self j f m (subst (λ i. find i m ≡ some e) (same_eq k j t) s))))
            (each e))
  ]
]

pub emplace_known :
    (j : Key) (e : Entry) (m : List Item) {x : Entry} → find j m ≡ some x → emplace j e m ≡ m
unfolding emplace
emplace_known j e m s = ground (arith, s)

pub emplace-IsBenign :
    (j k : Key) (e : Entry) (m : List Item)
    → Owns j (some e)
    → IsBenign k (find k m) (find k (emplace j e m))
emplace-IsBenign j k e m own = elim (Option-cases (find j m)) [
  | inr (x, s) ↦
      subst (λ m'. IsBenign k (find k m) (find k m')) (sym (emplace_known j e m s))
        (refl-IsBenign k (find k m))
  | inl n ↦ elim (Bool-cases (same k j)) [
    | inr o ↦
        subst (IsBenign k (find k m)) (sym (find-emplace_ne j k e m o)) (refl-IsBenign k (find k m))
    | inl t ↦
        subst (λ i. IsBenign i (find i m) (find i (emplace j e m))) (sym (same_eq k j t))
          (subst (λ x. IsBenign j x (find j (emplace j e m))) (sym n)
            (subst (IsBenign j none) (sym (find-emplace_self j e m n)) (absent-IsBenign own)))
  ]
]

pub buffer_data_known :
    (s : State) (now : ℕ) (j : Key) (frame : Bytes) (conn : ℕ)
    → contains j s.index ≡ true
    → (buffer_data s now j frame conn).0.index ≡ s.index
unfolding buffer_data append_pending with_index
buffer_data_known s now j frame conn t = ground (arith, t)

pub buffer_data_new :
    (s : State) (now : ℕ) (j : Key) (frame : Bytes) (conn : ℕ)
    → contains j s.index ≡ false
    → (buffer_data s now j frame conn).0.index ≡ emplace j (new_entry frame conn) s.index
unfolding buffer_data append_pending with_index
buffer_data_new s now j frame conn t = ground (arith, t)

-- `buffer_data` of a frame under its own key.
pub buffer_data-IsBenign :
    (s : State) (now : ℕ) (j k : Key) (frame : Bytes) (conn : ℕ)
    → OwnFrame j frame
    → IsBenign k (find k s.index) (find k (buffer_data s now j frame conn).0.index)
unfolding new_entry Owns
buffer_data-IsBenign s now j k frame conn own = elim (Bool-cases (contains j s.index)) [
  | inl t ↦
      subst (λ m. IsBenign k (find k s.index) (find k m))
        (sym (buffer_data_known s now j frame conn t)) (refl-IsBenign k (find k s.index))
  | inr o ↦
      subst (λ m. IsBenign k (find k s.index) (find k m))
        (sym (buffer_data_new s now j frame conn o))
        (emplace-IsBenign j k (new_entry frame conn) s.index own)
]

put_reply_conn-IsBenign :
    (k : Key) (conn : ℕ) (e : Entry) → IsBenign k (some e) (some (put_reply_conn conn e))
unfolding put_reply_conn is_held is_done Owns
put_reply_conn-IsBenign k conn e = record { holds = λ h. h; done = λ h. h; owns = λ o. o }

pub buffer_handled_index :
    (s : State) (now : ℕ) (j : Key) (conn : ℕ)
    → (buffer_handled s now j conn).index
      ≡ (if contains j s.index then modify j (put_reply_conn conn) s.index else s.index)
unfolding buffer_handled append_pending with_index
buffer_handled_index s now j conn = ground arith

pub buffer_handled-IsBenign :
    (s : State) (now : ℕ) (j k : Key) (conn : ℕ)
    → IsBenign k (find k s.index) (find k (buffer_handled s now j conn).index)
buffer_handled-IsBenign s now j k conn =
    subst (λ m. IsBenign k (find k s.index) (find k m)) (sym (buffer_handled_index s now j conn))
      (branch-IsBenign (contains j s.index) (modify j (put_reply_conn conn) s.index) s.index
        (modify-IsBenign j k (put_reply_conn conn) s.index (put_reply_conn-IsBenign k conn))
        (refl-IsBenign k (find k s.index)))
