-- ===== src/Delivery/Table.antt =====
-- Delivery.antt: the table of the messages that run and of those that have ended.
use ultra_net.Prelude.{
  ◌≡◌, refl, sym, subst, ap, ◌∙◌, ◌⊎◌, inl, inr, Bool, true, false, List, [], ◌∷◌, Option, none,
  some, arith, ◌&&◌, if◌then◌else◌, Bool-cases, ltb, ◌||◌, ◌==◌,
}
use ultra_net.ReceiverLog.Index.{Key, same, same_eq, same_refl}
use ultra_net.Delivery.{
  DedupState, in_progress, completed, DedupItem, lookup, erase, complete, is_completed, find_victim,
}
use ultra_net.Delivery.Once.{IsUnique}

lookup_here :
    (k : Key) (i : DedupItem) (m : List DedupItem)
    → same k i.id ≡ true
    → lookup k (i ∷ m) ≡ some i.state
unfolding lookup
lookup_here k i m t = ground (arith, t)

lookup_there :
    (k : Key) (i : DedupItem) (m : List DedupItem)
    → same k i.id ≡ false
    → lookup k (i ∷ m) ≡ lookup k m
unfolding lookup
lookup_there k i m o = ground (arith, o)

pub lookup-erase_self : (k : Key) (m : List DedupItem) → lookup k (erase k m) ≡ none
unfolding lookup erase
lookup-erase_self k [] = refl
lookup-erase_self k (i ∷ m) = elim (Bool-cases (same k i.id)) [
  | inl t ↦ ground (arith, t, lookup-erase_self k m)
  | inr o ↦ ground (arith, o, lookup-erase_self k m)
]

pub lookup-erase_ne :
    (k j : Key) (m : List DedupItem) → same j k ≡ false → lookup j (erase k m) ≡ lookup j m
unfolding lookup erase
lookup-erase_ne k j [] d = refl
lookup-erase_ne k j (i ∷ m) d = elim (Bool-cases (same k i.id)) [
  | inl t ↦ ground (arith, t, d, same_eq k i.id t, lookup-erase_ne k j m d)
  | inr o ↦ elim (Bool-cases (same j i.id)) [
    | inl u ↦ ground (arith, o, u)
    | inr u ↦ ground (arith, o, u, lookup-erase_ne k j m d)
  ]
]

pub lookup-complete_self :
    (k : Key) (m : List DedupItem) {s : DedupState}
    → lookup k m ≡ some s
    → lookup k (complete k m) ≡ some completed
unfolding lookup complete
lookup-complete_self k [] h = absurd (cc h)
lookup-complete_self k (i ∷ m) {s} h = elim (Bool-cases (same k i.id)) [
  | inl t ↦ ground (arith, t)
  | inr o ↦ ground (arith, o, lookup-complete_self k m {s = s} (ground (arith, o, h)))
]

pub lookup-complete_ne :
    (k j : Key) (m : List DedupItem) → same j k ≡ false → lookup j (complete k m) ≡ lookup j m
unfolding lookup complete
lookup-complete_ne k j [] d = refl
lookup-complete_ne k j (i ∷ m) d = elim (Bool-cases (same k i.id)) [
  | inl t ↦ ground (arith, t, d, same_eq k i.id t, lookup-complete_ne k j m d)
  | inr o ↦ elim (Bool-cases (same j i.id)) [
    | inl u ↦ ground (arith, o, u)
    | inr u ↦ ground (arith, o, u, lookup-complete_ne k j m d)
  ]
]

pub lookup-erase_none :
    (k j : Key) (m : List DedupItem) → lookup j m ≡ none → lookup j (erase k m) ≡ none
lookup-erase_none k j m n = elim (Bool-cases (same j k)) [
  | inl t ↦ subst (λ i. lookup i (erase k m) ≡ none) (sym (same_eq j k t)) (lookup-erase_self k m)
  | inr o ↦ lookup-erase_ne k j m o ∙ n
]

lookup-complete_none :
    (k j : Key) (m : List DedupItem) → lookup j m ≡ none → lookup j (complete k m) ≡ none
unfolding lookup complete
lookup-complete_none k j [] n = refl
lookup-complete_none k j (i ∷ m) n = elim (Bool-cases (same j i.id)) [
  | inl t ↦ absurd (ground (arith, t, n))
  | inr o ↦ elim (Bool-cases (same k i.id)) [
    | inl t ↦ ground (arith, t, o, lookup-complete_none k j m (ground (arith, o, n)))
    | inr u ↦ ground (arith, o, u, lookup-complete_none k j m (ground (arith, o, n)))
  ]
]

branch-IsUnique :
    (b : Bool) (m n : List DedupItem) → IsUnique m → IsUnique n → IsUnique (if b then m else n)
branch-IsUnique true m n u v = u
branch-IsUnique false m n u v = v

pub erase-IsUnique : (k : Key) (m : List DedupItem) → IsUnique m → IsUnique (erase k m)
unfolding erase IsUnique
erase-IsUnique k [] v = v
erase-IsUnique k (i ∷ m) (n, v) =
    branch-IsUnique (same k i.id) _ _ (erase-IsUnique k m v)
      (lookup-erase_none k i.id m n, erase-IsUnique k m v)

pub complete-IsUnique : (k : Key) (m : List DedupItem) → IsUnique m → IsUnique (complete k m)
unfolding complete IsUnique
complete-IsUnique k [] v = v
complete-IsUnique k (i ∷ m) (n, v) =
    branch-IsUnique (same k i.id) _ _ (lookup-complete_none k i.id m n, complete-IsUnique k m v)
      (lookup-complete_none k i.id m n, complete-IsUnique k m v)

picked :
    (b : Bool) (x y : Option Key)
    → ((if b then x else y) ≡ y) ⊎ (((if b then x else y) ≡ x) × (b ≡ true))
picked true x y = inr (refl, refl)
picked false x y = inl refl

abbrev pub older : Key → Key → Bool
older a v = ltb a.msg_id v.msg_id || ((a.msg_id == v.msg_id) && ltb a.sender v.sender)

completed_eq : (s : DedupState) → is_completed s ≡ true → s ≡ completed
unfolding is_completed
completed_eq in_progress h = absurd (cc h)
completed_eq completed h = refl

victim_next :
    (o : Option Key) (i : DedupItem) (m : List DedupItem) (v : Key)
    → find_victim o (i ∷ m) ≡ some v
    → (p : Option Key) × (find_victim p m ≡ some v)
      × ((p ≡ o) ⊎ ((p ≡ some i.id) × (is_completed i.state ≡ true)))
unfolding find_victim
victim_next none i m v h = (_, h, picked (is_completed i.state) (some i.id) none)
victim_next (some w) i m v h = (
  _,
  h,
  elim (picked (is_completed i.state && older i.id w) (some i.id) (some w)) [
    | inl e ↦ inl e
    | inr (e, t) ↦ inr (e, ground (arith, t))
  ],
)

victim_nil : (o : Option Key) (v : Key) → find_victim o [] ≡ some v → o ≡ some v
unfolding find_victim
victim_nil o v h = h

some_eq : (a b : Key) → some a ≡ some b → a ≡ b
some_eq a b h = cc h

-- The entry that is evicted is one of a message that has ended.
victim_from :
    (o : Option Key) (m : List DedupItem) (v : Key)
    → IsUnique m
    → find_victim o m ≡ some v
    → (o ≡ some v) ⊎ (lookup v m ≡ some completed)
unfolding IsUnique
victim_from o [] v u h = inl (victim_nil o v h)
victim_from o (i ∷ m) v (n, u) h =
    let (p, next, from) = victim_next o i m v h in
    elim (victim_from p m v u next) [
      | inr later ↦ elim (Bool-cases (same v i.id)) [
        | inl t ↦ absurd (cc (subst (λ j. lookup j m ≡ some completed) (same_eq v i.id t) later, n))
        | inr o ↦ inr (lookup_there v i m o ∙ later)
      ]
      | inl here ↦ elim from [
        | inl old ↦ inl (sym old ∙ here)
        | inr (new, c) ↦ inr (
            lookup_here v i m
              (subst (λ j. same v j ≡ true) (sym (some_eq i.id v (sym new ∙ here))) (same_refl v))
            ∙ ap some (completed_eq i.state c))
      ]
    ]

pub victim_completed :
    (m : List DedupItem) (v : Key)
    → IsUnique m
    → find_victim none m ≡ some v
    → lookup v m ≡ some completed
victim_completed m v u h = elim (victim_from none m v u h) [ inl e ↦ absurd (cc e) | inr c ↦ c ]
