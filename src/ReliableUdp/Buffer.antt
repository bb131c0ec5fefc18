-- ===== src/ReliableUdp/Buffer.antt =====
-- ReliableUdp.antt: the map of the packets that came in.
use ultra_net.Prelude.{
  ℕ, ◌≡◌, refl, List, [], ◌∷◌, some, none, arith, Bytes, ◌==◌, Bool-cases, inl, inr, ◌⊎◌,
}
use ultra_net.ReliableUdp.{find, erase, insert}

find-erase_self : (k : ℕ) (m : List (ℕ × Bytes)) → find k (erase k m) ≡ none
unfolding find erase
find-erase_self k [] = refl
find-erase_self k ((i, c) ∷ m) = elim (Bool-cases (k == i)) [
  | inl t ↦ ground (arith, t, find-erase_self k m)
  | inr o ↦ ground (arith, o, find-erase_self k m)
]

pub find-erase :
    (k j : ℕ) (m : List (ℕ × Bytes)) (b : Bytes) → find j (erase k m) ≡ some b → find j m ≡ some b
unfolding find erase
find-erase k j [] b h = h
find-erase k j ((i, c) ∷ m) b h = elim (Bool-cases (k == i)) [
  | inl t ↦ elim (Bool-cases (j == i)) [
    | inl u ↦ absurd (ground (arith, t, u, h, find-erase_self k m))
    | inr u ↦ ground (arith, u, find-erase k j m b (ground (arith, t, h)))
  ]
  | inr o ↦ elim (Bool-cases (j == i)) [
    | inl u ↦ ground (arith, o, u, h)
    | inr u ↦ ground (arith, u, find-erase k j m b (ground (arith, o, u, h)))
  ]
]

pub find-insert :
    (k j : ℕ) (m : List (ℕ × Bytes)) (c b : Bytes)
    → find j (insert k c m) ≡ some b
    → ((j ≡ k) × (c ≡ b)) ⊎ (find j m ≡ some b)
unfolding find insert
find-insert k j m c b h = elim (Bool-cases (j == k)) [
  | inl t ↦ inl (ground (arith, t), ground (arith, t, h))
  | inr o ↦ inr (find-erase k j m b (ground (arith, o, h)))
]
