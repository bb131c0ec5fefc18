-- ===== src/ReceiverLog/Persist.antt =====
-- What of the index the durability of a message hangs on: whether its entry is persisted.
use ultra_net.Prelude.{
  ◌≡◌, refl, Bool, true, false, List, [], ◌∷◌, Option, none, some, arith, ◌==◌, if◌then◌else◌,
  Bytes, ◌&&◌, ◌||◌, Bool-cases, Option-cases, inl, inr, ◌⊎◌,
}
use ultra_net.ReceiverLog.Index.{
  Key, same, Entry, Item, find, modify, erase, emplace, same_eq, same_sym, contains,
}
use ultra_net.ReceiverLog.State.{PendingRec, State, persisted, put_enqueued, takes, mark_taken}
use ultra_net.ReceiverLog.Flush.{commit_rec, commit_index, put_persisted, put_handled}

unfoldable pub persist : Key → List Item → Option Bool
persist k [] = none
persist k (i ∷ m) = if same k i.id then some i.entry.persisted else persist k m

-- A data record for the key among those that are pending.
unfoldable pub pends : Key → List PendingRec → Bool
pends k [] = false
pends k (r ∷ rs) = ((r.type == 1) && same k r.id) || pends k rs

pub persist-modify :
    (k j : Key) (f : Entry → Entry) (m : List Item)
    → ((e : Entry) → (f e).persisted ≡ e.persisted)
    → persist j (modify k f m) ≡ persist j m
unfolding persist modify
persist-modify k j f [] keeps = refl
persist-modify k j f (i ∷ m) keeps = ground (arith, keeps i.entry, persist-modify k j f m keeps)

pub persist-mark_taken :
    (type name : Bytes) (j : Key) (m : List Item) → persist j (mark_taken type name m) ≡ persist j m
unfolding persist mark_taken put_enqueued
persist-mark_taken type name j [] = refl
persist-mark_taken type name j (i ∷ m) = elim (Bool-cases (takes type name i.entry)) [
  | inl t ↦ ground (arith, t, persist-mark_taken type name j m)
  | inr o ↦ ground (arith, o, persist-mark_taken type name j m)
]

pub persist-erase_self : (k : Key) (m : List Item) → persist k (erase k m) ≡ none
unfolding persist erase
persist-erase_self k [] = refl
persist-erase_self k (i ∷ m) = ground (arith, persist-erase_self k m)

pub persist-erase :
    (k j : Key) (m : List Item) {b : Bool} → persist j (erase k m) ≡ some b → persist j m ≡ some b
unfolding persist erase
persist-erase k j [] h = h
persist-erase k j (i ∷ m) {b} h = elim (Bool-cases (same k i.id)) [
  | inl t ↦ elim (Bool-cases (same j i.id)) [
    | inl u ↦
        absurd (ground (arith, t, h, persist-erase_self k m, same_eq k i.id t, same_eq j i.id u))
    | inr u ↦ ground (arith, u, persist-erase k j m {b = b} (ground (arith, t, h)))
  ]
  | inr o ↦ elim (Bool-cases (same j i.id)) [
    | inl u ↦ ground (arith, o, u, h)
    | inr u ↦ ground (arith, u, persist-erase k j m {b = b} (ground (arith, o, u, h)))
  ]
]

pub persist-erase_ne :
    (k j : Key) (m : List Item) → same j k ≡ false → persist j (erase k m) ≡ persist j m
unfolding persist erase
persist-erase_ne k j [] d = refl
persist-erase_ne k j (i ∷ m) d = elim (Bool-cases (same k i.id)) [
  | inl t ↦ ground (arith, t, d, same_eq k i.id t, persist-erase_ne k j m d)
  | inr o ↦ ground (arith, o, persist-erase_ne k j m d)
]

pub persist-find : (k : Key) (m : List Item) → find k m ≡ none → persist k m ≡ none
unfolding persist find
persist-find k [] h = refl
persist-find k (i ∷ m) h = elim (Bool-cases (same k i.id)) [
  | inl t ↦ absurd (ground (arith, t, h))
  | inr o ↦ ground (arith, o, persist-find k m (ground (arith, o, h)))
]

pub persist-emplace :
    (k j : Key) (e : Entry) (m : List Item) {b : Bool}
    → persist j (emplace k e m) ≡ some b
    → (persist j m ≡ some b) ⊎ ((same j k ≡ true) × (e.persisted ≡ b))
unfolding persist emplace
persist-emplace k j e m {b} h = elim (Option-cases (find k m)) [
  | inl n ↦ elim (Bool-cases (same j k)) [
    | inl t ↦ inr (t, ground (arith, n, t, h))
    | inr o ↦ inl (ground (arith, n, o, h))
  ]
  | inr (x, n) ↦ inl (ground (arith, n, h))
]

persist-modify_persisted :
    (k j : Key) (m : List Item) {b : Bool}
    → persist j (modify k put_persisted m) ≡ some b
    → ((persist j m ≡ some b) × ((b ≡ false) → same j k ≡ false)) ⊎ ((b ≡ true) × (same j k ≡ true))
unfolding persist modify put_persisted
persist-modify_persisted k j [] h = absurd (cc h)
persist-modify_persisted k j (i ∷ m) {b} h = elim (Bool-cases (same k i.id)) [
  | inl t ↦
      let e = same_eq k i.id t in
      elim (Bool-cases (same j i.id)) [
        | inl u ↦ inr (ground (arith, t, u, h), ground (arith, t, u, e))
        | inr u ↦ inl (ground (arith, t, u, h), λ f. ground (arith, u, e))
      ]
  | inr o ↦ elim (Bool-cases (same j i.id)) [
    | inl u ↦
        let e = same_eq j i.id u in
        inl (ground (arith, o, u, h), λ f. ground (arith, o, u, e, same_sym j k))
    | inr u ↦ elim (persist-modify_persisted k j m {b = b} (ground (arith, o, u, h))) [
      | inl (g, d) ↦ inl (ground (arith, u, g), d)
      | inr r ↦ inr r
    ]
  ]
]

put_handled-persisted : (e : Entry) → (put_handled e).persisted ≡ e.persisted
unfolding put_handled
put_handled-persisted e = refl

persist-commit_rec :
    (r : PendingRec) (j : Key) (m : List Item) {b : Bool}
    → persist j (commit_rec r m) ≡ some b
    → ((persist j m ≡ some b) × ((b ≡ false) → pends j (r ∷ []) ≡ false))
      ⊎ ((b ≡ true) × (pends j (r ∷ []) ≡ true))
unfolding commit_rec pends
persist-commit_rec r j m {b} h = elim (Bool-cases (r.type == 1)) [
  | inl t ↦ elim (persist-modify_persisted r.id j m {b = b} (ground (arith, t, h))) [
    | inl (g, d) ↦ inl (g, λ f. ground (arith, d f))
    | inr (bt, s) ↦ inr (bt, ground (arith, t, s))
  ]
  | inr o ↦ elim (Bool-cases (r.type == 2)) [
    | inl t ↦ inl (
      ground (arith, o, t, h, persist-modify r.id j put_handled m (λ e. put_handled-persisted e)),
      λ f. ground (arith, o),
    )
    | inr u ↦ inl (ground (arith, o, u, h), λ f. ground (arith, o))
  ]
]

-- Behind a commit, an entry that is persisted was, or has its record in the batch; one that is not has
-- no record in it.
pub persist-commit_index :
    (rs : List PendingRec) (j : Key) (m : List Item) {b : Bool}
    → persist j (commit_index rs m) ≡ some b
    → ((persist j m ≡ some b) × ((b ≡ false) → pends j rs ≡ false))
      ⊎ ((b ≡ true) × (pends j rs ≡ true))
unfolding commit_index pends
persist-commit_index [] j m h = inl (h, λ f. refl)
persist-commit_index (r ∷ rs) j m {b} h =
    elim (persist-commit_index rs j (commit_rec r m) {b = b} h) [
      | inr (bt, p) ↦ inr (bt, ground (arith, p))
      | inl (g, d) ↦ elim (persist-commit_rec r j m {b = b} g) [
        | inr (bt, p) ↦ inr (bt, ground (arith, p))
        | inl (g', d') ↦ inl (g', λ f. ground (arith, d f, d' f))
      ]
    ]

pub find-persist :
    (k : Key) (m : List Item) (e : Entry) → find k m ≡ some e → persist k m ≡ some e.persisted
unfolding find persist
find-persist k [] e h = absurd (cc h)
find-persist k (i ∷ m) e h = elim (Bool-cases (same k i.id)) [
  | inl t ↦ ground (arith, t, h)
  | inr o ↦ ground (arith, o, find-persist k m e (ground (arith, o, h)))
]

pub contains-persist :
    (k : Key) (m : List Item) → contains k m ≡ elim (persist k m) [ none ↦ false | some _ ↦ true ]
unfolding contains
contains-persist k m = elim (Option-cases (find k m)) [
  | inl n ↦ ground (arith, n, persist-find k m n)
  | inr (e, n) ↦ ground (arith, n, find-persist k m e n)
]

pub persisted-persist :
    (s : State) (k : Key) → persisted s k ≡ elim (persist k s.index) [ none ↦ false | some b ↦ b ]
unfolding persisted
persisted-persist s k = elim (Option-cases (find k s.index)) [
  | inl n ↦ ground (arith, n, persist-find k s.index n)
  | inr (e, n) ↦ ground (arith, n, find-persist k s.index e n)
]
