-- ===== src/Delivery/Evict.antt =====
-- Delivery.antt: which entry a full table gives up, how large it grows, and what a throw leaves.
use ultra_net.Prelude.{
  ℕ, suc, ◌≤◌, ◌<◌, ◌≡◌, refl, sym, subst, ap, ◌∙◌, inl, inr, Bool, true, false, List, [], ◌∷◌,
  Option, none, some, arith, ◌&&◌, leb, if◌then◌else◌, length, Bool-cases, Option-cases, All,
}
use ultra_net.ReceiverLog.Index.{Key, same}
use ultra_net.ReceiverLog.State.{drop_key, handled_durable, executed}
use ultra_net.Delivery.{
  Node, DedupState, completed, DedupItem, lookup, erase, complete, is_completed, find_victim,
  claim_remote, claim_place, claim_evicting, emplace_running, claim_completed, busy, with_rcv,
}
use ultra_net.Delivery.Accept.{DeliverResult, finish_table}
use ultra_net.Delivery.Once.{IsUnique}
use ultra_net.Delivery.Table.{older, victim_completed}
use ultra_net.Delivery.Claim.{claim_found, claim_new}

older_trans : (a b c : Key) → older a b ≡ true → older a c ≡ false → older b c ≡ false
older_trans a b c h k = ground arith

older_or : (a b c : Key) → older a b ≡ false → older b c ≡ false → older a c ≡ false
older_or a b c h k = ground arith

older_irrefl : (a : Key) → older a a ≡ false
older_irrefl a = ground arith

-- No entry that has ended is older than this one.
IsOldest : Key → List DedupItem → Type 0
IsOldest v = All (λ i. is_completed i.state ≡ true → older i.id v ≡ false)

pick_some :
    (w : Key) (i : DedupItem) (m : List DedupItem) (b : Bool)
    → is_completed i.state && older i.id w ≡ b
    → find_victim (some w) (i ∷ m) ≡ find_victim (some (if b then i.id else w)) m
unfolding find_victim
pick_some w i m true e = ground (arith, e)
pick_some w i m false e = ground (arith, e)

nil_victim : (w v : Key) → find_victim (some w) [] ≡ some v → w ≡ v
unfolding find_victim
nil_victim w v h = cc h

rest-IsOldest :
    (w : Key) (m : List DedupItem) (v : Key)
    → find_victim (some w) m ≡ some v
    → (older w v ≡ false) × IsOldest v m
unfolding IsOldest
rest-IsOldest w [] v h = (subst (λ x. older w x ≡ false) (nil_victim w v h) (older_irrefl w), tt)
rest-IsOldest w (i ∷ m) v h = elim (Bool-cases (is_completed i.state && older i.id w)) [
  | inl t ↦
      let (best, rest) = rest-IsOldest i.id m v (sym (pick_some w i m true t) ∙ h) in
      (older_trans i.id w v (ground (arith, t)) best, ((λ _. best), rest))
  | inr o ↦
      let (best, rest) = rest-IsOldest w m v (sym (pick_some w i m false o) ∙ h) in
      (best, ((λ c. older_or i.id w v (ground (arith, o, c)) best), rest))
]

pick_none :
    (i : DedupItem) (m : List DedupItem) (b : Bool)
    → is_completed i.state ≡ b
    → find_victim none (i ∷ m) ≡ find_victim (if b then some i.id else none) m
unfolding find_victim
pick_none i m b e = ap (λ c. find_victim (if c then some i.id else none) m) e

-- The entry that a full table gives up is one of a message that has ended, and no other such entry has
-- a lower message id, or the same one and a lower sender: whatever the order in which the table is
-- gone through, if no two of its entries have the same key.
pub find_victim-IsOldest :
    (m : List DedupItem) (v : Key)
    → IsUnique m
    → find_victim none m ≡ some v
    → (lookup v m ≡ some completed)
      × All (λ i. is_completed i.state ≡ true → older i.id v ≡ false) m
unfolding IsOldest
find_victim-IsOldest m v u h = (victim_completed m v u h, oldest m v h)
  where
    oldest : (m : List DedupItem) (v : Key) → find_victim none m ≡ some v → IsOldest v m
    oldest [] v h = tt
    oldest (i ∷ m) v h = elim (Bool-cases (is_completed i.state)) [
      | inl t ↦
          let (best, rest) = rest-IsOldest i.id m v (sym (pick_none i m true t) ∙ h) in
          ((λ _. best), rest)
      | inr o ↦ ((λ c. absurd (cc (c, o))), oldest m v (sym (pick_none i m false o) ∙ h))
    ]

length_if :
    (b : Bool) (m n : List DedupItem) (c : ℕ)
    → length m ≤ c
    → length n ≤ c
    → length (if b then m else n) ≤ c
length_if true m n c h k = h
length_if false m n c h k = k

length-erase : (k : Key) (m : List DedupItem) → length (erase k m) ≤ length m
unfolding erase
length-erase k [] = omega arith
length-erase k (i ∷ m) =
    length_if (same k i.id) _ _ (suc (length m)) (omega (arith, length-erase k m))
      (omega (arith, length-erase k m))

length-erase_found :
    (k : Key) (m : List DedupItem) {s : DedupState}
    → lookup k m ≡ some s
    → length (erase k m) < length m
unfolding erase lookup
length-erase_found k [] h = absurd (cc h)
length-erase_found k (i ∷ m) {s} h = elim (Bool-cases (same k i.id)) [
  | inl t ↦ ground (arith, t, length-erase k m)
  | inr o ↦ ground (arith, o, length-erase_found k m {s = s} (ground (arith, o, h)))
]

length-complete : (k : Key) (m : List DedupItem) → length (complete k m) ≡ length m
unfolding complete
length-complete k [] = refl
length-complete k (i ∷ m) = ground (arith, length-complete k m)

evicting-length :
    (n : Node) (k : Key) (o : Option Key)
    → IsUnique n.dedup
    → find_victim none n.dedup ≡ o
    → length (claim_evicting n k o).0.dedup ≤ length n.dedup
unfolding claim_evicting emplace_running
evicting-length n k none u e = omega arith
evicting-length n k (some w) u e =
    omega (arith, length-erase_found w n.dedup (victim_completed n.dedup w u e))

node_if :
    {X : Type 0} (b : Bool) (m n : Node × X) (c : ℕ)
    → (b ≡ true → length m.0.dedup ≤ c)
    → (b ≡ false → length n.0.dedup ≤ c)
    → length (if b then m else n).0.dedup ≤ c
node_if true m n c h k = h refl
node_if false m n c h k = k refl

claim_place-length :
    (n : Node) (k : Key)
    → IsUnique n.dedup
    → length n.dedup ≤ n.dedup_cap
    → length (claim_place n k).0.dedup ≤ n.dedup_cap
unfolding claim_place emplace_running
claim_place-length n k u h =
    node_if (leb n.dedup_cap (length n.dedup)) _ _ n.dedup_cap
      (λ _. omega (arith, h, evicting-length n k (find_victim none n.dedup) u refl))
      (λ o. ground (arith, o))

claim_remote-length :
    (n : Node) (k : Key)
    → IsUnique n.dedup
    → length n.dedup ≤ n.dedup_cap
    → length (claim_remote n k).0.dedup ≤ n.dedup_cap
claim_remote-length n k u h = elim (Option-cases (lookup k n.dedup)) [
  | inr (s, e) ↦ subst (λ x. length x.0.dedup ≤ n.dedup_cap) (sym (claim_found n k s e)) h
  | inl e ↦
      subst (λ x. length x.0.dedup ≤ n.dedup_cap) (sym (claim_new n k e))
        (node_if ((n.logging && executed n.rcv k) && (n.logging && handled_durable n.rcv k))
          (n, claim_completed) _ n.dedup_cap (λ _. h)
          (λ _.
            node_if (n.logging && executed n.rcv k) (n, busy) _ n.dedup_cap (λ _. h)
              (λ _. claim_place-length n k u h)))
]

finish_table-length :
    (n : Node) (k : Key) (result : DeliverResult)
    → length n.dedup ≤ n.dedup_cap
    → length (finish_table n k result) ≤ n.dedup_cap
unfolding finish_table
finish_table-length n k result h = elim (Option-cases (lookup k n.dedup)) [
  | inl e ↦ ground (arith, e, h, length-erase k n.dedup)
  | inr (s, e) ↦ ground (arith, e, h, length-erase k n.dedup, length-complete k n.dedup)
]

-- A claim and the end of a handler leave the table within its capacity, if it was and no two of its
-- entries have the same key.
pub table_bounded :
    (n : Node) (k : Key) (result : DeliverResult)
    → IsUnique n.dedup
    → length n.dedup ≤ n.dedup_cap
    → (length (claim_remote n k).0.dedup ≤ n.dedup_cap)
      × (length (finish_table n k result) ≤ n.dedup_cap)
table_bounded n k result u h = (claim_remote-length n k u h, finish_table-length n k result h)

-- With the message out of the table and out of the log.
abbrev forgotten : Node → Key → Node
forgotten n k = with_rcv (record n { dedup = erase k n.dedup }) (drop_key n.rcv k)
