-- ===== src/Delivery/Replays.antt =====
-- Delivery.antt: the messages that an actor that was spawned is given from the log.
use ultra_net.Prelude.{
  if_intro, ℕ, ◌+◌, ◌≡◌, refl, sym, subst, ap, ◌∙◌, inl, inr, true, false, List, [], ◌∷◌, Option,
  none, some, arith, ◌||◌, not, if◌then◌else◌, Bytes, Bool-cases, All,
}
use ultra_net.Uri.{ActorUri}
use ultra_net.ReceiverLog.Index.{Key, Entry, Item, same, same_eq, same_refl, find, find-modify_ne}
use ultra_net.ReceiverLog.State.{
  State, ReplayItem, with_index, set_enqueued, put_enqueued, takes, is_waiting, take_items,
  mark_taken, take_for_actor,
}
use ultra_net.Delivery.{Node, with_rcv}
use ultra_net.Delivery.Push.{settle, push_routed_frame, push_item, push_items, replay_receiver_for}
use ultra_net.Delivery.Held.{is_held, OwnFrame, Owns, IsBenign, refl-IsBenign}
use ultra_net.Delivery.Distinct.{IsDistinct}
use ultra_net.Delivery.Once.{
  mails_other, mails, AllOnce, AllOnce-benign, put_enqueued-IsBenign, mailed, push_cases,
}
use ultra_net.Delivery.Enqueue.{settle-AllOnce}

-- What `take_for_actor` does to an entry.
marked : Bytes → Bytes → Option Entry → Option Entry
marked type name none = none
marked type name (some e) = if takes type name e then some (put_enqueued true e) else some e

find-mark_taken :
    (type name : Bytes) (k : Key) (m : List Item)
    → find k (mark_taken type name m) ≡ marked type name (find k m)
unfolding find mark_taken marked
find-mark_taken type name k [] = refl
find-mark_taken type name k (i ∷ m) = elim (Bool-cases (takes type name i.entry)) [
  | inl t ↦ elim (Bool-cases (same k i.id)) [
    | inl u ↦ ground (arith, t, u)
    | inr o ↦ ground (arith, t, o, find-mark_taken type name k m)
  ]
  | inr t ↦ elim (Bool-cases (same k i.id)) [
    | inl u ↦ ground (arith, t, u)
    | inr o ↦ ground (arith, t, o, find-mark_taken type name k m)
  ]
]

marked-IsBenign :
    (type name : Bytes) (k : Key) (e : Option Entry) → IsBenign k e (marked type name e)
unfolding marked
marked-IsBenign type name k none = refl-IsBenign k none
marked-IsBenign type name k (some e) =
    if_intro (IsBenign k (some e)) (takes type name e) _ _ (λ _. put_enqueued-IsBenign k e)
      (λ _. refl-IsBenign k (some e))

-- The item is that of an entry that waits for this actor.
TakenFrom : Bytes → Bytes → List Item → ReplayItem → Type 0
TakenFrom type name m i =
    (e : Entry) × (find i.id m ≡ some e) × (takes type name e ≡ true) × (i.frame ≡ e.frame)

found_apart :
    (j k : Key) (m : List Item) {e : Entry} → find j m ≡ none → find k m ≡ some e → same k j ≡ false
found_apart j k m {e} n s = elim (Bool-cases (same k j)) [
  | inr o ↦ o
  | inl t ↦ absurd (cc (subst (λ i. find i m ≡ some e) (same_eq k j t) s, n))
]

find_there : (k : Key) (i : Item) (m : List Item) → same k i.id ≡ false → find k (i ∷ m) ≡ find k m
unfolding find
find_there k i m o = ground (arith, o)

find_here : (i : Item) (m : List Item) → find i.id (i ∷ m) ≡ some i.entry
unfolding find
find_here i m = ground (arith, same_refl i.id)

TakenFrom-cons :
    (type name : Bytes) (j : Item) (m : List Item) (is : List ReplayItem)
    → find j.id m ≡ none
    → All (TakenFrom type name m) is
    → All (TakenFrom type name (j ∷ m)) is × All (λ i. same i.id j.id ≡ false) is
unfolding TakenFrom
TakenFrom-cons type name j m [] n v = (tt, tt)
TakenFrom-cons type name j m (i ∷ is) n ((e, f, t, g), v) =
    let (rest, apart) = TakenFrom-cons type name j m is n v in
    let o = found_apart j.id i.id m n f in
    (((e, find_there i.id j m o ∙ f, t, g), rest), (o, apart))

-- No two items are of the same message.
Apart : List ReplayItem → Type 0
Apart [] = Unit
Apart (i ∷ is) = All (λ x. same x.id i.id ≡ false) is × Apart is

take_items-TakenFrom :
    (type name : Bytes) (m : List Item)
    → IsDistinct m
    → All (TakenFrom type name m) (take_items type name m) × Apart (take_items type name m)
unfolding take_items IsDistinct TakenFrom Apart
take_items-TakenFrom type name [] v = (tt, tt)
take_items-TakenFrom type name (j ∷ m) (n, v) =
    let (each, apart) = take_items-TakenFrom type name m v in
    let (more, other) = TakenFrom-cons type name j m (take_items type name m) n each in
    if_intro (λ is. All (TakenFrom type name (j ∷ m)) is × Apart is) (takes type name j.entry)
      (record { id = j.id; frame = j.entry.frame } ∷ take_items type name m)
      (take_items type name m) (λ t. (((j.entry, find_here j m, t, refl), more), (other, apart)))
      (λ _. (more, apart))

-- The item may be pushed: its message has no copy, and is marked.
abbrev Ready : Node → (Key → ℕ) → ReplayItem → Type 0
Ready n r i =
    OwnFrame i.id i.frame
    × (mails i.id n.mail + r i.id ≡ 0)
    × (is_held (find i.id n.rcv.index) ≡ true)

settle_other :
    (n : Node) (j k : Key) (frame : Bytes)
    → OwnFrame j frame
    → same k j ≡ false
    → (mails k (settle j (push_routed_frame n frame 0)).mail ≡ mails k n.mail)
      × (find k (settle j (push_routed_frame n frame 0)).rcv.index ≡ find k n.rcv.index)
unfolding settle with_rcv set_enqueued with_index OwnFrame mailed
settle_other n j k frame own o = elim (push_cases n frame 0) [
  | inl e ↦
      subst
        (λ x.
          (mails k (settle j x).mail ≡ mails k n.mail)
          × (find k (settle j x).rcv.index ≡ find k n.rcv.index))
        (sym e) (refl, find-modify_ne j k (put_enqueued false) n.rcv.index o)
  | inr (m, a, u, e) ↦
      subst
        (λ x.
          (mails k (settle j x).mail ≡ mails k n.mail)
          × (find k (settle j x).rcv.index ≡ find k n.rcv.index))
        (sym e) (mails_other k n a m 0 (subst (λ i. same k i ≡ false) (sym (own m u)) o), refl)
]

Ready-push_item :
    (n : Node) (i : ReplayItem) (r : Key → ℕ) (is : List ReplayItem)
    → OwnFrame i.id i.frame
    → All (λ x. same x.id i.id ≡ false) is
    → All (Ready n r) is
    → All (Ready (push_item n i) r) is
unfolding push_item
Ready-push_item n i r [] own a v = tt
Ready-push_item n i r (x ∷ is) own (o, a) ((own_x, z, h), v) =
    let (mail, entry) = settle_other n i.id x.id i.frame own o in
    ((own_x, ap (λ c. c + r x.id) mail ∙ z, ap is_held entry ∙ h), Ready-push_item n i r is own a v)

push_items-AllOnce :
    (n : Node) (is : List ReplayItem) (r d : Key → ℕ)
    → Apart is
    → All (Ready n r) is
    → AllOnce n r d
    → AllOnce (push_items n is) r d
unfolding push_items Apart push_item
push_items-AllOnce n [] r d a v w = w
push_items-AllOnce n (i ∷ is) r d (o, a) ((own, z, h), v) w =
    push_items-AllOnce (push_item n i) is r d a (Ready-push_item n i r is own o v)
      (settle-AllOnce n i.id i.frame 0 r d own z h w)

taken_marked :
    (type name : Bytes) (e : Entry)
    → takes type name e ≡ true
    → (is_held (some e) ≡ false) × (is_held (marked type name (some e)) ≡ true)
unfolding marked takes is_waiting is_held put_enqueued
taken_marked type name e t = ground (arith, t)

TakenFrom-Ready :
    (n : Node) (type name : Bytes) (r d : Key → ℕ) (is : List ReplayItem)
    → AllOnce n r d
    → All (TakenFrom type name n.rcv.index) is
    → All (Ready (with_rcv n (take_for_actor n.rcv type name).0) r) is
unfolding TakenFrom Owns take_for_actor with_index with_rcv
TakenFrom-Ready n type name r d [] w v = tt
TakenFrom-Ready n type name r d (i ∷ is) w ((e, f, t, g), v) =
    let (idle, held) = taken_marked type name e t in
    let here = w.each i.id in
    (
      (
        subst (OwnFrame i.id) (sym g) (subst (Owns i.id) f here.owns),
        elim here.held [ inl z ↦ z | inr h ↦ absurd (cc (ap is_held (sym f) ∙ h, idle)) ],
        ap is_held (find-mark_taken type name i.id n.rcv.index ∙ ap (marked type name) f) ∙ held,
      ),
      TakenFrom-Ready n type name r d is w v,
    )

marked_none : (type name : Bytes) → marked type name none ≡ none
unfolding marked
marked_none type name = refl

mark_taken-IsDistinct :
    (type name : Bytes) (m : List Item) → IsDistinct m → IsDistinct (mark_taken type name m)
unfolding mark_taken IsDistinct
mark_taken-IsDistinct type name [] v = v
mark_taken-IsDistinct type name (j ∷ m) (n, v) =
    let gone : find j.id (mark_taken type name m) ≡ none =
      find-mark_taken type name j.id m ∙ (ap (marked type name) n ∙ marked_none type name) in
    if_intro IsDistinct (takes type name j.entry) _ _
      (λ _. (gone, mark_taken-IsDistinct type name m v))
      (λ _. (gone, mark_taken-IsDistinct type name m v))

take_for_actor-AllOnce :
    (n : Node) (type name : Bytes) (r d : Key → ℕ)
    → AllOnce n r d
    → AllOnce (with_rcv n (take_for_actor n.rcv type name).0) r d
unfolding take_for_actor with_index
take_for_actor-AllOnce n type name r d v =
    AllOnce-benign n _ r d
      (λ k.
        subst (IsBenign k (find k n.rcv.index)) (sym (find-mark_taken type name k n.rcv.index))
          (marked-IsBenign type name k (find k n.rcv.index)))
      (mark_taken-IsDistinct type name n.rcv.index) v

taken_items :
    (s : State) (type name : Bytes) → (take_for_actor s type name).1 ≡ take_items type name s.index
unfolding take_for_actor
taken_items s type name = refl

pub replay-AllOnce :
    (n : Node) (u : ActorUri) (r d : Key → ℕ)
    → AllOnce n r d
    → AllOnce (replay_receiver_for n u) r d
unfolding replay_receiver_for
replay-AllOnce n u r d v =
    let (each, apart) = take_items-TakenFrom u.type u.name n.rcv.index v.distinct in
    if_intro (λ x. AllOnce x r d) (not n.logging || n.hold_handler) _ _ (λ _. v)
      (λ _.
        subst
          (λ is. AllOnce (push_items (with_rcv n (take_for_actor n.rcv u.type u.name).0) is) r d)
          (sym (taken_items n.rcv u.type u.name))
          (push_items-AllOnce _ (take_items u.type u.name n.rcv.index) r d apart
            (TakenFrom-Ready n u.type u.name r d _ v each)
            (take_for_actor-AllOnce n u.type u.name r d v)))
