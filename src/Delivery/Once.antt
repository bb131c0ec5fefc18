-- ===== src/Delivery/Once.antt =====
-- Delivery.antt: a message has one copy in the node at most, and what says so.
use ultra_net.Prelude.{
  ℕ, suc, ◌+◌, ◌≤◌, ◌≡◌, sym, subst, ap, ◌∙◌, ◌⊎◌, inl, inr, Bool, true, false, List, [], ◌∷◌, ◌++◌,
  Option, none, some, arith, if◌then◌else◌, Bytes, Bool-cases, Option-cases,
}
use ultra_net.Uri.{ActorUri}
use ultra_net.Wire.{Routed, unpack_routed}
use ultra_net.ReceiverLog.Index.{
  Key, Entry, Item, same, same_eq, same_refl, find, modify, find-modify_self, find-modify_ne,
  find-modify_none,
}
use ultra_net.ReceiverLog.State.{State, with_index, set_enqueued, put_enqueued}
use ultra_net.Delivery.{DedupState, in_progress, completed, DedupItem, lookup, Mail, Node, with_rcv}
use ultra_net.Delivery.Push.{
  push_routed_frame, push_routed, push_envelope, find_local_proxy, envelope_of,
}
use ultra_net.Delivery.Accept.{key_of_routed, key_of_envelope}
use ultra_net.Delivery.Distinct.{IsDistinct, modify-IsDistinct}
use ultra_net.Delivery.Held.{is_held, is_done, Owns, IsBenign, modify-IsBenign}

-- How many envelopes of the message are in the mailboxes.
unfoldable pub mails : Key → List Mail → ℕ
mails k [] = 0
mails k (m ∷ ms) =
    let rest = mails k ms in if same k (key_of_envelope m.envelope) then suc rest else rest

unfoldable pub runs : Option DedupState → ℕ
runs none = 0
runs (some in_progress) = 1
runs (some completed) = 0

-- Of the message `k`, whose entry in the log is `e` and whose state in the table is `t`, there are `h`
-- envelopes and `r` handlers that run, and `d` of them have ended.
pub record IsOnce (k : Key) (e : Option Entry) (t : Option DedupState) (h r d : ℕ) : Type 0 where
  pub alone : h + r ≤ 1
  pub held : (h + r ≡ 0) ⊎ (is_held e ≡ true)
  pub running : runs t ≡ r
  pub once : (d ≡ 0) ⊎ ((d ≡ 1) × (is_done e ≡ true))
  pub owns : Owns k e

-- No two entries of the table have the same key.
unfoldable pub IsUnique : List DedupItem → Type 0
IsUnique [] = Unit
IsUnique (i ∷ m) = (lookup i.id m ≡ none) × IsUnique m

-- `r` and `d` count, for each message, the handlers that run and those that have ended.
pub record AllOnce (n : Node) (r d : Key → ℕ) : Type 0 where
  pub logs : n.logging ≡ true
  pub unique : IsUnique n.dedup
  pub distinct : IsDistinct n.rcv.index
  pub each :
      (k : Key) → IsOnce k (find k n.rcv.index) (lookup k n.dedup) (mails k n.mail) (r k) (d k)

pub IsOnce-benign :
    {k : Key} {e e' : Option Entry} {t : Option DedupState} {h r d : ℕ}
    → IsBenign k e e'
    → IsOnce k e t h r d
    → IsOnce k e' t h r d
IsOnce-benign b v = record {
  alone = v.alone;
  held = elim v.held [ inl z ↦ inl z | inr x ↦ inr (b.holds x) ];
  running = v.running;
  once = elim v.once [ inl z ↦ inl z | inr (o, x) ↦ inr (o, b.done x) ];
  owns = b.owns v.owns;
}

-- A change of the log that takes nothing.
pub AllOnce-benign :
    (n : Node) (s : State) (r d : Key → ℕ)
    → ((k : Key) → IsBenign k (find k n.rcv.index) (find k s.index))
    → (IsDistinct n.rcv.index → IsDistinct s.index)
    → AllOnce n r d
    → AllOnce (with_rcv n s) r d
unfolding with_rcv
AllOnce-benign n s r d b c v = record {
  logs = v.logs;
  unique = v.unique;
  distinct = c v.distinct;
  each = λ k. IsOnce-benign (b k) (v.each k);
}

pub put_enqueued-IsBenign : (k : Key) (e : Entry) → IsBenign k (some e) (some (put_enqueued true e))
unfolding put_enqueued is_held is_done Owns
put_enqueued-IsBenign k e = record { holds = λ h. ground (arith, h); done = λ h. h; owns = λ o. o }

pub mark-AllOnce :
    (n : Node) (j : Key) (r d : Key → ℕ)
    → AllOnce n r d
    → AllOnce (with_rcv n (set_enqueued n.rcv j true)) r d
unfolding set_enqueued with_index
mark-AllOnce n j r d v =
    AllOnce-benign n (set_enqueued n.rcv j true) r d
      (λ k. modify-IsBenign j k (put_enqueued true) n.rcv.index (put_enqueued-IsBenign k))
      (modify-IsDistinct j (put_enqueued true) n.rcv.index) v

-- A message without a copy may be marked at will.
IsOnce-unmark :
    {k : Key} {e : Entry} {t : Option DedupState} {h r d : ℕ} (b : Bool)
    → h + r ≡ 0
    → IsOnce k (some e) t h r d
    → IsOnce k (some (put_enqueued b e)) t h r d
unfolding put_enqueued is_done Owns
IsOnce-unmark b z v = record {
  alone = v.alone;
  held = inl z;
  running = v.running;
  once = v.once;
  owns = v.owns;
}

-- What a change of the entry of `j` makes of it.
pub at_key :
    (P Q : Option Entry → Type 0) (j : Key) (f : Entry → Entry) (m : List Item)
    → (P none → Q none)
    → ((e : Entry) → P (some e) → Q (some (f e)))
    → P (find j m)
    → Q (find j (modify j f m))
at_key P Q j f m when_none when_some p = elim (Option-cases (find j m)) [
  | inl n ↦ subst Q (sym (ap (find j) (find-modify_none j f m n) ∙ n)) (when_none (subst P n p))
  | inr (e, s) ↦ subst Q (sym (find-modify_self j f m s)) (when_some e (subst P s p))
]

pub unmark-AllOnce :
    (n : Node) (j : Key) (b : Bool) (r d : Key → ℕ)
    → mails j n.mail + r j ≡ 0
    → AllOnce n r d
    → AllOnce (with_rcv n (set_enqueued n.rcv j b)) r d
unfolding with_rcv set_enqueued with_index
unmark-AllOnce n j b r d z v = record {
  logs = v.logs;
  unique = v.unique;
  distinct = modify-IsDistinct j (put_enqueued b) n.rcv.index v.distinct;
  each = λ k. elim (Bool-cases (same k j)) [
    | inr o ↦
        subst (λ e. IsOnce k e (lookup k n.dedup) (mails k n.mail) (r k) (d k))
          (sym (find-modify_ne j k (put_enqueued b) n.rcv.index o)) (v.each k)
    | inl t ↦
        subst
          (λ i.
            IsOnce i (find i (modify j (put_enqueued b) n.rcv.index)) (lookup i n.dedup)
              (mails i n.mail) (r i) (d i))
          (sym (same_eq k j t))
          (at_key (λ e. IsOnce j e (lookup j n.dedup) (mails j n.mail) (r j) (d j))
            (λ e. IsOnce j e (lookup j n.dedup) (mails j n.mail) (r j) (d j)) j (put_enqueued b)
            n.rcv.index (λ w. w) (λ e w. IsOnce-unmark b z w) (v.each j))
  ];
}

pub push_cases :
    (n : Node) (frame : Bytes) (conn : ℕ)
    → (push_routed_frame n frame conn ≡ (n, false))
      ⊎ ((m : Routed) × (a : ActorUri) × (unpack_routed frame ≡ some m)
          × (push_routed_frame n frame conn ≡ (
            record n {
              mail = n.mail ++ (record { actor = a; envelope = envelope_of m conn } ∷ []);
            },
            true,
          )))
unfolding push_routed_frame push_routed push_envelope
push_cases n frame conn = elim (Option-cases (unpack_routed frame)) [
  | inl e ↦ inl (ground (arith, e))
  | inr (m, e) ↦ elim (Option-cases (find_local_proxy n m.uri)) [
    | inl f ↦ inl (ground (arith, e, f))
    | inr (a, f) ↦ elim (Bool-cases a.shutting_down) [
      | inl b ↦ inl (ground (arith, e, f, b))
      | inr b ↦ inr (m, a.uri, e, ground (arith, e, f, b))
    ]
  ]
]

-- An envelope more in a mailbox.
unfoldable pub mailed : Node → ActorUri → Routed → ℕ → Node
mailed n a m conn = record n {
  mail = n.mail ++ (record { actor = a; envelope = envelope_of m conn } ∷ []);
}

mails-append : (k : Key) (xs ys : List Mail) → mails k (xs ++ ys) ≡ mails k xs + mails k ys
unfolding mails
mails-append k [] ys = omega arith
mails-append k (x ∷ xs) ys = ground (arith, mails-append k xs ys)

pub mails_other :
    (k : Key) (n : Node) (a : ActorUri) (m : Routed) (conn : ℕ)
    → same k (key_of_routed m) ≡ false
    → mails k (mailed n a m conn).mail ≡ mails k n.mail
unfolding mailed mails envelope_of key_of_envelope key_of_routed
mails_other k n a m conn o =
    mails-append k n.mail (record { actor = a; envelope = envelope_of m conn } ∷ [])
    ∙ ground (arith, o)

mails_own :
    (n : Node) (a : ActorUri) (m : Routed) (conn : ℕ)
    → mails (key_of_routed m) (mailed n a m conn).mail ≡ suc (mails (key_of_routed m) n.mail)
unfolding mailed mails envelope_of key_of_envelope key_of_routed
mails_own n a m conn =
    mails-append (key_of_routed m) n.mail (record { actor = a; envelope = envelope_of m conn } ∷ [])
    ∙ ground (arith, same_refl (key_of_routed m))

-- The envelope of a message of which there was no copy.
pub mailed-AllOnce :
    (n : Node) (a : ActorUri) (m : Routed) (conn : ℕ) (r d : Key → ℕ)
    → mails (key_of_routed m) n.mail + r (key_of_routed m) ≡ 0
    → is_held (find (key_of_routed m) n.rcv.index) ≡ true
    → AllOnce n r d
    → AllOnce (mailed n a m conn) r d
unfolding mailed
mailed-AllOnce n a m conn r d z h v = record {
  logs = v.logs;
  unique = v.unique;
  distinct = v.distinct;
  each = λ k. elim (Bool-cases (same k (key_of_routed m))) [
    | inr o ↦
        subst (λ x. IsOnce k (find k n.rcv.index) (lookup k n.dedup) x (r k) (d k))
          (sym (mails_other k n a m conn o)) (v.each k)
    | inl t ↦
        subst
          (λ i.
            IsOnce i (find i n.rcv.index) (lookup i n.dedup) (mails i (mailed n a m conn).mail)
              (r i) (d i))
          (sym (same_eq k (key_of_routed m) t))
          (subst
            (λ x.
              IsOnce (key_of_routed m) (find (key_of_routed m) n.rcv.index)
                (lookup (key_of_routed m) n.dedup) x (r (key_of_routed m)) (d (key_of_routed m)))
            (sym (mails_own n a m conn))
            (let w = v.each (key_of_routed m) in
              record {
                alone = omega (arith, z);
                held = inr h;
                running = w.running;
                once = w.once;
                owns = w.owns;
              }))
  ];
}
