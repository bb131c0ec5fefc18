-- ===== src/ReceiverLog/Index.antt =====
-- The `m_index` of include/ultranet/actor/dist/receiver_log.h: a hash map, which is an association
-- list here, in the order of its iteration. No operation depends on that order but in the order of a
-- list it gives.
use ultra_net.Prelude.{
  ℕ, ◌≡◌, refl, Bool, true, false, List, [], ◌∷◌, Option, none, some, arith, ◌==◌, if◌then◌else◌,
  Bytes, ◌&&◌, Bool-cases, Option-cases, inl, inr,
}

pub record Key : Type 0 where
  pub sender : ℕ
  pub msg_id : ℕ

-- `operator==`.
unfoldable pub same : Key → Key → Bool
same a b = (a.sender == b.sender) && (a.msg_id == b.msg_id)

pub record Entry : Type 0 where
  pub frame : Bytes
  pub reply_conn_id : ℕ
  pub persisted : Bool
  pub executed : Bool
  pub enqueued : Bool
  pub handled : Bool

-- An entry behind its key.
pub record Item : Type 0 where
  pub id : Key
  pub entry : Entry

unfoldable pub find : Key → List Item → Option Entry
find k [] = none
find k (i ∷ m) = if same k i.id then some i.entry else find k m

-- Where the code changes what the iterator of `find` points to.
unfoldable pub modify : Key → (Entry → Entry) → List Item → List Item
modify k f [] = []
modify k f (i ∷ m) =
    let rest = modify k f m in
    if same k i.id then record { id = i.id; entry = f i.entry } ∷ m else i ∷ rest

unfoldable pub erase : Key → List Item → List Item
erase k [] = []
erase k (i ∷ m) = let rest = erase k m in if same k i.id then rest else i ∷ rest

-- `emplace`, which leaves an entry that there is.
unfoldable pub emplace : Key → Entry → List Item → List Item
emplace k e m = elim (find k m) [ none ↦ record { id = k; entry = e } ∷ m | some _ ↦ m ]

unfoldable pub contains : Key → List Item → Bool
contains k m = elim (find k m) [ none ↦ false | some _ ↦ true ]

pub same_refl : (k : Key) → same k k ≡ true
unfolding same
same_refl k = ground arith

pub same_eq : (a b : Key) → same a b ≡ true → a ≡ b
unfolding same
same_eq a b h = ground (arith, h)

pub same_sym : (a b : Key) → same a b ≡ same b a
unfolding same
same_sym a b = ground arith

pub find-modify_self :
    (k : Key) (f : Entry → Entry) (m : List Item) {e : Entry}
    → find k m ≡ some e
    → find k (modify k f m) ≡ some (f e)
unfolding find modify
find-modify_self k f [] h = absurd (cc h)
find-modify_self k f (i ∷ m) {e} h = elim (Bool-cases (same k i.id)) [
  | inl t ↦ ground (arith, t, h)
  | inr o ↦ ground (arith, o, h, find-modify_self k f m {e = e} (ground (arith, o, h)))
]

pub find-modify_none :
    (k : Key) (f : Entry → Entry) (m : List Item) → find k m ≡ none → modify k f m ≡ m
unfolding find modify
find-modify_none k f [] h = refl
find-modify_none k f (i ∷ m) h = elim (Bool-cases (same k i.id)) [
  | inl t ↦ absurd (ground (arith, t, h))
  | inr o ↦ ground (arith, o, find-modify_none k f m (ground (arith, o, h)))
]

pub find-modify_ne :
    (k j : Key) (f : Entry → Entry) (m : List Item)
    → same j k ≡ false
    → find j (modify k f m) ≡ find j m
unfolding find modify
find-modify_ne k j f [] d = refl
find-modify_ne k j f (i ∷ m) d = elim (Bool-cases (same k i.id)) [
  | inl t ↦ ground (arith, t, d, same_eq k i.id t)
  | inr o ↦ elim (Bool-cases (same j i.id)) [
    | inl u ↦ ground (arith, o, u)
    | inr u ↦ ground (arith, o, u, find-modify_ne k j f m d)
  ]
]

pub find-erase_self : (k : Key) (m : List Item) → find k (erase k m) ≡ none
unfolding find erase
find-erase_self k [] = refl
find-erase_self k (i ∷ m) = elim (Bool-cases (same k i.id)) [
  | inl t ↦ ground (arith, t, find-erase_self k m)
  | inr o ↦ ground (arith, o, find-erase_self k m)
]

pub find-erase_ne : (k j : Key) (m : List Item) → same j k ≡ false → find j (erase k m) ≡ find j m
unfolding find erase
find-erase_ne k j [] d = refl
find-erase_ne k j (i ∷ m) d = elim (Bool-cases (same k i.id)) [
  | inl t ↦ ground (arith, t, d, same_eq k i.id t, find-erase_ne k j m d)
  | inr o ↦ elim (Bool-cases (same j i.id)) [
    | inl u ↦ ground (arith, o, u)
    | inr u ↦ ground (arith, o, u, find-erase_ne k j m d)
  ]
]

pub find-emplace_self :
    (k : Key) (e : Entry) (m : List Item) → find k m ≡ none → find k (emplace k e m) ≡ some e
unfolding find emplace
find-emplace_self k e m h = ground (arith, h, same_refl k)

pub find-emplace_ne :
    (k j : Key) (e : Entry) (m : List Item) → same j k ≡ false → find j (emplace k e m) ≡ find j m
unfolding find emplace
find-emplace_ne k j e m d = elim (Option-cases (find k m)) [
  | inl h ↦ ground (arith, h, d)
  | inr (x, h) ↦ ground (arith, h)
]
