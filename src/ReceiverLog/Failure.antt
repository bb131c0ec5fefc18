-- ===== src/ReceiverLog/Failure.antt =====
-- The receiver's log: a flush that fails, and when a flush is due.
use ultra_net.Prelude.{
  ℕ, ◌≡◌, refl, sym, ap, ◌∙◌, Bool, true, false, List, [], ◌∷◌, Option, none, some, arith, ◌==◌,
  Bytes, Bool-cases, Option-cases, inl, inr, length,
}
use ultra_net.Log.{Frame}
use ultra_net.ReceiverLog.Index.{Key, same, same_eq, Item, find, contains, erase}
use ultra_net.ReceiverLog.State.{PendingRec, State, with_index, persisted, has_data}
use ultra_net.ReceiverLog.Flush.{
  Write, FlushResult, flush_ready, is_ready, commit_batch, commit_written, write_full, batch_bytes,
  swap_pending, nothing, rollback, erase_unpersisted,
}
use ultra_net.ReceiverLog.Persist.{
  persist, pends, persist-erase, persist-erase_self, persist-erase_ne, find-persist, persist-find,
  contains-persist, persisted-persist,
}
use ultra_net.ReceiverLog.Durable.{IsDurable}

persist-erase_unpersisted :
    (k j : Key) (m : List Item) {b : Bool}
    → persist j (erase_unpersisted k m) ≡ some b
    → (persist j m ≡ some b) × ((b ≡ false) → same j k ≡ false)
unfolding erase_unpersisted
persist-erase_unpersisted k j m {b} h = elim (Option-cases (find k m)) [
  | inl n ↦
      let g : persist j m ≡ some b = ground (arith, n, h) in
      (
        g,
        λ f. elim (Bool-cases (same j k)) [
          | inl u ↦ absurd (ground (arith, g, persist-find k m n, same_eq j k u))
          | inr u ↦ u
        ],
      )
  | inr (e, n) ↦ elim (Bool-cases e.persisted) [
    | inl t ↦
        let g : persist j m ≡ some b = ground (arith, n, t, h) in
        (
          g,
          λ f. elim (Bool-cases (same j k)) [
            | inl u ↦ absurd (ground (arith, g, f, t, find-persist k m e n, same_eq j k u))
            | inr u ↦ u
          ],
        )
    | inr o ↦
        let g : persist j (erase k m) ≡ some b = ground (arith, n, o, h) in
        (
          persist-erase k j m {b = b} g,
          λ f. elim (Bool-cases (same j k)) [
            | inl u ↦ absurd (ground (arith, g, persist-erase_self k m, same_eq j k u))
            | inr u ↦ u
          ],
        )
  ]
]

persist-rollback :
    (rs : List PendingRec) (j : Key) (m : List Item) {b : Bool}
    → persist j (rollback rs m) ≡ some b
    → (persist j m ≡ some b) × ((b ≡ false) → pends j rs ≡ false)
unfolding rollback pends
persist-rollback [] j m h = (h, λ f. refl)
persist-rollback (r ∷ rs) j m {b} h = elim (Bool-cases (r.type == 1)) [
  | inl t ↦
      let (g, d) =
        persist-rollback rs j (erase_unpersisted r.id m) {b = b} (ground (arith, t, h)) in
      let (g', d') = persist-erase_unpersisted r.id j m {b = b} g in
      (g', λ f. ground (arith, t, d f, d' f))
  | inr o ↦
      let (g, d) = persist-rollback rs j m {b = b} (ground (arith, o, h)) in
      (g, λ f. ground (arith, o, d f))
]

erase_unpersisted-keeps :
    (k j : Key) (m : List Item)
    → persist j m ≡ some true
    → persist j (erase_unpersisted k m) ≡ some true
unfolding erase_unpersisted
erase_unpersisted-keeps k j m h = elim (Option-cases (find k m)) [
  | inl n ↦ ground (arith, n, h)
  | inr (e, n) ↦ elim (Bool-cases e.persisted) [
    | inl t ↦ ground (arith, n, t, h)
    | inr o ↦ elim (Bool-cases (same j k)) [
      | inl u ↦ absurd (ground (arith, h, o, find-persist k m e n, same_eq j k u))
      | inr u ↦ ground (arith, n, o, h, persist-erase_ne k j m u)
    ]
  ]
]

rollback-keeps :
    (rs : List PendingRec) (j : Key) (m : List Item)
    → persist j m ≡ some true
    → persist j (rollback rs m) ≡ some true
unfolding rollback
rollback-keeps [] j m h = h
rollback-keeps (r ∷ rs) j m h = elim (Bool-cases (r.type == 1)) [
  | inl t ↦ ground (
    arith,
    t,
    rollback-keeps rs j (erase_unpersisted r.id m) (erase_unpersisted-keeps r.id j m h),
  )
  | inr o ↦ ground (arith, o, rollback-keeps rs j m h)
]

-- What a rollback leaves of an index in which all that is not persisted is in the batch.
contains-rollback :
    (rs : List PendingRec) (k : Key) (m : List Item)
    → (persist k m ≡ some false → pends k rs ≡ true)
    → contains k (rollback rs m) ≡ elim (persist k m) [ none ↦ false | some b ↦ b ]
contains-rollback rs k m w = elim (Option-cases (persist k m)) [
  | inl n ↦ elim (Option-cases (persist k (rollback rs m))) [
    | inl q ↦ ground (arith, n, q, contains-persist k (rollback rs m))
    | inr (b, q) ↦ absurd (ground (arith, n, (persist-rollback rs k m {b = b} q).0))
  ]
  | inr (true, n) ↦ ground (arith, n, rollback-keeps rs k m n, contains-persist k (rollback rs m))
  | inr (false, n) ↦ elim (Option-cases (persist k (rollback rs m))) [
    | inl q ↦ ground (arith, n, q, contains-persist k (rollback rs m))
    | inr (b, q) ↦
        let (g, d) = persist-rollback rs k m {b = b} q in
        absurd (ground (arith, n, g, w n, d (ground (arith, n, g))))
  ]
]

commit_written-failed :
    (batch : List PendingRec) (synced : Bool) (s : State) (w : Bytes × Option Bool)
    (r : FlushResult)
    → (commit_written batch synced s w).1 ≡ some r
    → r.ok ≡ false
    → (commit_written batch synced s w).0.index ≡ rollback batch s.index
unfolding commit_written with_index
commit_written-failed batch synced s (file, none) r e bad = absurd (cc e)
commit_written-failed batch synced s (file, some false) r e bad = refl
commit_written-failed batch false s (file, some true) r e bad = refl
commit_written-failed batch true s (file, some true) r e bad = absurd (ground (arith, e, bad))

flush_ready-rollback :
    (s : State) (now : ℕ) (ws : List Write) (synced : Bool) (r : FlushResult)
    → (flush_ready s now ws synced).1 ≡ some r
    → r.ok ≡ false
    → (flush_ready s now ws synced).0.index ≡ rollback s.pending s.index
unfolding flush_ready nothing commit_batch swap_pending with_index
flush_ready-rollback s now ws synced r e bad = elim (Bool-cases (length s.pending == 0)) [
  | inl t ↦ absurd (ground (arith, t, e, bad))
  | inr o ↦ elim (Bool-cases (is_ready s now)) [
    | inr u ↦ absurd (ground (arith, o, u, e, bad))
    | inl t ↦ elim (Bool-cases s.fd_open) [
      | inr c ↦ ground (arith, o, t, c)
      | inl d ↦ ground (
        arith,
        o,
        t,
        d,
        commit_written-failed s.pending synced (swap_pending s)
            (write_full ws s.file (batch_bytes s.pending)) r (ground (arith, o, t, d, e)) bad,
      )
    ]
  ]
]

-- Where a flush of a log whose file was whole fails, the index keeps the messages that were persisted and
-- no other.
pub flush_ready_failed :
    (s : State) (fs : List Frame) (now : ℕ) (ws : List Write) (synced : Bool) (r : FlushResult)
    (k : Key)
    → IsDurable s fs
    → (flush_ready s now ws synced).1 ≡ some r
    → r.ok ≡ false
    → has_data (flush_ready s now ws synced).0 k ≡ persisted s k
unfolding has_data
flush_ready_failed s fs now ws synced r k v e bad =
    ap (contains k) (flush_ready-rollback s now ws synced r e bad)
    ∙ contains-rollback s.pending k s.index (v.waiting k)
    ∙ sym (persisted-persist s k)
