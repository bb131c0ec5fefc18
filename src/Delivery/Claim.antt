-- ===== src/Delivery/Claim.antt =====
-- Delivery.antt: the start of a handler.
use ultra_net.Prelude.{
  if_intro, ℕ, suc, ◌+◌, ◌≤◌, ◌≡◌, refl, sym, subst, ap, ◌∙◌, ◌⊎◌, inl, inr, true, false, List, ◌∷◌,
  Option, none, some, arith, ◌&&◌, if◌then◌else◌, Bool-cases, Option-cases, leb, length,
}
use ultra_net.ReceiverLog.Index.{Key, same, same_eq, find}
use ultra_net.ReceiverLog.State.{executed, handled_durable}
use ultra_net.Delivery.{
  Node, Envelope, DedupState, in_progress, completed, DedupItem, lookup, erase, find_victim,
  DedupClaim, fresh, claim_completed, busy, overflow, emplace_running, claim_evicting, claim_place,
  claim_remote, note_wire_skip,
}
use ultra_net.Delivery.Accept.{key_of_envelope, after_claim, begin_dispatch}
use ultra_net.Delivery.Held.{is_held}
use ultra_net.Delivery.Once.{mails, runs, IsUnique, AllOnce, unmark-AllOnce}
use ultra_net.Delivery.Table.{
  lookup-erase_self, lookup-erase_ne, lookup-erase_none, erase-IsUnique, victim_completed,
}
use ultra_net.Delivery.Enqueue.{post_ack-AllOnce}

-- A table that counts the handlers otherwise.
pub retable :
    (n : Node) (dd : List DedupItem) (r r' d : Key → ℕ)
    → AllOnce n r d
    → IsUnique dd
    → ((k : Key) → runs (lookup k dd) ≡ r' k)
    → ((k : Key)
        → (r' k ≡ r k) ⊎ ((mails k n.mail + r' k ≤ 1) × (is_held (find k n.rcv.index) ≡ true)))
    → AllOnce (record n { dedup = dd }) r' d
retable n dd r r' d v u counts why = record {
  logs = v.logs;
  unique = u;
  distinct = v.distinct;
  each = λ k.
      let w = v.each k in
      record {
        alone = elim (why k) [ inl e ↦ omega (arith, e, w.alone) | inr (a, h) ↦ a ];
        held = elim (why k) [ inl e ↦ ground (arith, e, w.held) | inr (a, h) ↦ inr h ];
        running = counts k;
        once = w.once;
        owns = w.owns;
      };
}

runs-emplace :
    (j k : Key) (dd : List DedupItem) (r r' : Key → ℕ)
    → r j ≡ 0
    → r' j ≡ suc (r j)
    → (same k j ≡ false → r' k ≡ r k)
    → (same k j ≡ false → runs (lookup k dd) ≡ r k)
    → runs (lookup k (record { id = j; state = in_progress } ∷ dd)) ≡ r' k
unfolding lookup runs
runs-emplace j k dd r r' z own other old = elim (Bool-cases (same k j)) [
  | inl t ↦ ground (arith, t, z, own, same_eq k j t)
  | inr o ↦ ground (arith, o, other o, old o)
]

runs-erase :
    (w k : Key) (dd : List DedupItem) (x : ℕ)
    → lookup w dd ≡ some completed
    → runs (lookup k dd) ≡ x
    → runs (lookup k (erase w dd)) ≡ x
unfolding runs
runs-erase w k dd x c h = elim (Bool-cases (same k w)) [
  | inr o ↦ ap runs (lookup-erase_ne w k dd o) ∙ h
  | inl t ↦
      let found : lookup k dd ≡ some completed =
        subst (λ i. lookup i dd ≡ some completed) (sym (same_eq k w t)) c in
      ap runs
        (subst (λ i. lookup i (erase w dd) ≡ none) (sym (same_eq k w t)) (lookup-erase_self w dd))
      ∙ (sym (ap runs found) ∙ h)
]

unfoldable pub found_claim : DedupState → DedupClaim
found_claim in_progress = busy
found_claim completed = claim_completed

pub claim_found :
    (n : Node) (j : Key) (s : DedupState)
    → lookup j n.dedup ≡ some s
    → claim_remote n j ≡ (n, found_claim s)
unfolding claim_remote found_claim
claim_found n j in_progress e = ground (arith, e)
claim_found n j completed e = ground (arith, e)

pub claim_new :
    (n : Node) (j : Key)
    → lookup j n.dedup ≡ none
    → claim_remote n j ≡ (
        if (n.logging && executed n.rcv j) && (n.logging && handled_durable n.rcv j)
        then (n, claim_completed)
        else if n.logging && executed n.rcv j
        then (n, busy)
        else claim_place n j)
unfolding claim_remote
claim_new n j e = ground (arith, e)

-- A handler more of a message of which there is no copy, but which is marked.
module _ (n : Node) (j : Key) (r r' d : Key → ℕ) (v : AllOnce n r d) (z : mails j n.mail + r j ≡ 0)
    (h : is_held (find j n.rcv.index) ≡ true) (own : r' j ≡ suc (r j))
    (other : (k : Key) → same k j ≡ false → r' k ≡ r k) where
  started-AllOnce :
      (dd : List DedupItem)
      → IsUnique dd
      → lookup j dd ≡ none
      → ((k : Key) → same k j ≡ false → runs (lookup k dd) ≡ r k)
      → AllOnce (record n { dedup = record { id = j; state = in_progress } ∷ dd }) r' d
  unfolding IsUnique
  started-AllOnce dd u new old =
      retable n (record { id = j; state = in_progress } ∷ dd) r r' d v (new, u)
        (λ k. runs-emplace j k dd r r' (omega (arith, z)) own (other k) (old k))
        (λ k. elim (Bool-cases (same k j)) [
          | inr o ↦ inl (other k o)
          | inl t ↦ inr (
              subst (λ i. (mails i n.mail + r' i ≤ 1) × (is_held (find i n.rcv.index) ≡ true))
                (sym (same_eq k j t)) (omega (arith, z, own), h))
        ])

  Claimed : Node × DedupClaim → Type 0
  Claimed (m, fresh) = AllOnce m r' d
  Claimed (m, claim_completed) = AllOnce m r d
  Claimed (m, busy) = AllOnce m r d
  Claimed (m, overflow) = AllOnce m r d × (mails j m.mail + r j ≡ 0)

  evicted-AllOnce :
      (w : Key)
      → lookup j n.dedup ≡ none
      → find_victim none n.dedup ≡ some w
      → AllOnce (record n { dedup = record { id = j; state = in_progress } ∷ erase w n.dedup }) r' d
  evicted-AllOnce w new e =
      started-AllOnce (erase w n.dedup) (erase-IsUnique w n.dedup v.unique)
        (lookup-erase_none w j n.dedup new)
        (λ k _.
          runs-erase w k n.dedup (r k) (victim_completed n.dedup w v.unique e) (v.each k).running)

  evicting-Claimed :
      (o : Option Key)
      → lookup j n.dedup ≡ none
      → find_victim none n.dedup ≡ o
      → Claimed (claim_evicting n j o)
  unfolding claim_evicting Claimed emplace_running
  evicting-Claimed none new e =
      (record { logs = v.logs; unique = v.unique; distinct = v.distinct; each = v.each }, z)
  evicting-Claimed (some w) new e =
      let a = evicted-AllOnce w new e in
      record { logs = a.logs; unique = a.unique; distinct = a.distinct; each = a.each }

  emplaced-Claimed : lookup j n.dedup ≡ none → Claimed (emplace_running j n, fresh)
  unfolding Claimed emplace_running
  emplaced-Claimed new = started-AllOnce n.dedup v.unique new (λ k _. (v.each k).running)

  claim_place-Claimed : lookup j n.dedup ≡ none → Claimed (claim_place n j)
  unfolding claim_place
  claim_place-Claimed new =
      if_intro Claimed (leb n.dedup_cap (length n.dedup)) _ _
        (λ _. evicting-Claimed (find_victim none n.dedup) new refl) (λ _. emplaced-Claimed new)

  unclaimed : (s : DedupState) → Claimed (n, found_claim s)
  unfolding Claimed found_claim
  unclaimed in_progress = v
  unclaimed completed = v

  claim_remote-Claimed : Claimed (claim_remote n j)
  unfolding found_claim
  claim_remote-Claimed = elim (Option-cases (lookup j n.dedup)) [
    | inr (s, e) ↦ subst Claimed (sym (claim_found n j s e)) (unclaimed s)
    | inl e ↦ subst Claimed (sym (claim_new n j e)) (
        if_intro Claimed ((n.logging && executed n.rcv j) && (n.logging && handled_durable n.rcv j))
          (n, claim_completed) _ (λ _. unclaimed completed)
          (λ _.
            if_intro Claimed (n.logging && executed n.rcv j) (n, busy) _
              (λ _. unclaimed in_progress) (λ _. claim_place-Claimed e)))
  ]

  after_claim-AllOnce :
      (e : Envelope) (x : Node × DedupClaim)
      → key_of_envelope e ≡ j
      → Claimed x
      → (((after_claim e x).1 ≡ true) × AllOnce (after_claim e x).0 r' d)
        ⊎ (((after_claim e x).1 ≡ false) × AllOnce (after_claim e x).0 r d)
  unfolding after_claim Claimed note_wire_skip
  after_claim-AllOnce e (m, fresh) key c = inl (refl, c)
  after_claim-AllOnce e (m, claim_completed) key c = inr (
    refl,
    post_ack-AllOnce _ e.reply_conn_id e.correlation_id r d
        (record { logs = c.logs; unique = c.unique; distinct = c.distinct; each = c.each }),
  )
  after_claim-AllOnce e (m, busy) key c =
      inr (refl, record { logs = c.logs; unique = c.unique; distinct = c.distinct; each = c.each })
  after_claim-AllOnce e (m, overflow) key (c, none_left) = inr (
    refl,
    if_intro (λ x. AllOnce x r d) m.logging _ _
        (λ _.
          unmark-AllOnce m (key_of_envelope e) false r d
            (subst (λ i. mails i m.mail + r i ≡ 0) (sym key) none_left) c)
        (λ _. c),
  )

-- A message that was taken out of a mailbox, of which there is no other copy.
pub begin-AllOnce :
    (n : Node) (e : Envelope) (r r' d : Key → ℕ)
    → AllOnce n r d
    → mails (key_of_envelope e) n.mail + r (key_of_envelope e) ≡ 0
    → is_held (find (key_of_envelope e) n.rcv.index) ≡ true
    → r' (key_of_envelope e) ≡ suc (r (key_of_envelope e))
    → ((k : Key) → same k (key_of_envelope e) ≡ false → r' k ≡ r k)
    → (((begin_dispatch n e).1 ≡ true) × AllOnce (begin_dispatch n e).0 r' d)
      ⊎ (((begin_dispatch n e).1 ≡ false) × AllOnce (begin_dispatch n e).0 r d)
unfolding begin_dispatch
begin-AllOnce n e r r' d v z h own other =
    after_claim-AllOnce n (key_of_envelope e) r r' d v z h own other e
      (claim_remote n (key_of_envelope e)) refl
      (claim_remote-Claimed n (key_of_envelope e) r r' d v z h own other)
