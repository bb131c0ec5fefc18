-- ===== src/Delivery/Flushes.antt =====
-- Delivery.antt: what a flush of the receiver's log leaves of the entry of a message.
use ultra_net.Prelude.{
  ℕ, ◌≡◌, sym, subst, inl, inr, Bool, true, false, List, [], ◌∷◌, Option, none, some, arith, ◌==◌,
  if◌then◌else◌, Bytes, Bool-cases, Option-cases, length,
}
use ultra_net.ReceiverLog.Index.{
  Key, Entry, Item, same, same_eq, find, modify, erase, find-erase_self, find-erase_ne,
}
use ultra_net.ReceiverLog.State.{PendingRec, State, with_index}
use ultra_net.ReceiverLog.Flush.{
  Write, erase_unpersisted, rollback, put_persisted, put_handled, commit_rec, commit_index,
  committed, with_file, commit_written, commit_batch, swap_pending, is_ready, flush_ready,
  write_full, batch_bytes,
}
use ultra_net.Delivery.Held.{
  is_held, is_done, Owns, IsBenign, branch-IsBenign, refl-IsBenign, trans-IsBenign, modify-IsBenign,
}

put_persisted-IsBenign : (k : Key) (e : Entry) → IsBenign k (some e) (some (put_persisted e))
unfolding put_persisted is_held is_done Owns
put_persisted-IsBenign k e = record {
  holds = λ h. ground (arith, h);
  done = λ h. ground (arith, h);
  owns = λ o. o;
}

put_handled-IsBenign : (k : Key) (e : Entry) → IsBenign k (some e) (some (put_handled e))
unfolding put_handled is_held is_done Owns
put_handled-IsBenign k e = record { holds = λ h. h; done = λ h. h; owns = λ o. o }

commit_rec-IsBenign :
    (r : PendingRec) (k : Key) (m : List Item) → IsBenign k (find k m) (find k (commit_rec r m))
unfolding commit_rec
commit_rec-IsBenign r k m =
    branch-IsBenign (r.type == 1) (modify r.id put_persisted m)
      (if r.type == 2 then modify r.id put_handled m else m)
      (modify-IsBenign r.id k put_persisted m (put_persisted-IsBenign k))
      (branch-IsBenign (r.type == 2) (modify r.id put_handled m) m
        (modify-IsBenign r.id k put_handled m (put_handled-IsBenign k))
        (refl-IsBenign k (find k m)))

commit_index-IsBenign :
    (rs : List PendingRec) (k : Key) (m : List Item)
    → IsBenign k (find k m) (find k (commit_index rs m))
unfolding commit_index
commit_index-IsBenign [] k m = refl-IsBenign k (find k m)
commit_index-IsBenign (r ∷ rs) k m =
    trans-IsBenign (commit_rec-IsBenign r k m) (commit_index-IsBenign rs k (commit_rec r m))

-- An entry that is not persisted is neither held nor done.
unpersisted-IsBenign : (k : Key) (e : Entry) → e.persisted ≡ false → IsBenign k (some e) none
unfolding is_held is_done Owns
unpersisted-IsBenign k e u = record {
  holds = λ h. ground (arith, u, h);
  done = λ h. ground (arith, u, h);
  owns = λ o. tt;
}

erase-IsBenign :
    (j k : Key) (m : List Item) (e : Entry)
    → find j m ≡ some e
    → e.persisted ≡ false
    → IsBenign k (find k m) (find k (erase j m))
erase-IsBenign j k m e s u = elim (Bool-cases (same k j)) [
  | inr o ↦ subst (IsBenign k (find k m)) (sym (find-erase_ne j k m o)) (refl-IsBenign k (find k m))
  | inl t ↦
      subst (λ i. IsBenign i (find i m) (find i (erase j m))) (sym (same_eq k j t))
        (subst (λ x. IsBenign j x (find j (erase j m))) (sym s)
          (subst (IsBenign j (some e)) (sym (find-erase_self j m)) (unpersisted-IsBenign j e u)))
]

pub unpersisted_none : (j : Key) (m : List Item) → find j m ≡ none → erase_unpersisted j m ≡ m
unfolding erase_unpersisted
unpersisted_none j m n = ground (arith, n)

pub unpersisted_some :
    (j : Key) (m : List Item) (e : Entry)
    → find j m ≡ some e
    → erase_unpersisted j m ≡ (if e.persisted then m else erase j m)
unfolding erase_unpersisted
unpersisted_some j m e s = ground (arith, s)

erase_unpersisted-IsBenign :
    (j k : Key) (m : List Item) → IsBenign k (find k m) (find k (erase_unpersisted j m))
erase_unpersisted-IsBenign j k m = elim (Option-cases (find j m)) [
  | inl n ↦
      subst (λ m'. IsBenign k (find k m) (find k m')) (sym (unpersisted_none j m n))
        (refl-IsBenign k (find k m))
  | inr (e, s) ↦
      subst (λ m'. IsBenign k (find k m) (find k m')) (sym (unpersisted_some j m e s))
        (elim (Bool-cases e.persisted) [
          | inl p ↦
              subst (λ b. IsBenign k (find k m) (find k (if b then m else erase j m))) (sym p)
                (refl-IsBenign k (find k m))
          | inr u ↦
              subst (λ b. IsBenign k (find k m) (find k (if b then m else erase j m))) (sym u)
                (erase-IsBenign j k m e s u)
        ])
]

rollback-IsBenign :
    (rs : List PendingRec) (k : Key) (m : List Item)
    → IsBenign k (find k m) (find k (rollback rs m))
unfolding rollback
rollback-IsBenign [] k m = refl-IsBenign k (find k m)
rollback-IsBenign (r ∷ rs) k m =
    trans-IsBenign
      (branch-IsBenign (r.type == 1) (erase_unpersisted r.id m) m
        (erase_unpersisted-IsBenign r.id k m) (refl-IsBenign k (find k m)))
      (rollback-IsBenign rs k (if r.type == 1 then erase_unpersisted r.id m else m))

-- The index that a flush of this batch leaves is the same, a committed or a rolled back one.
commit_written-IsBenign :
    (batch : List PendingRec) (synced : Bool) (s : State) (w : Bytes × Option Bool) (k : Key)
    → IsBenign k (find k s.index) (find k (commit_written batch synced s w).0.index)
unfolding commit_written with_index with_file committed
commit_written-IsBenign batch synced s (file, none) k = refl-IsBenign k (find k s.index)
commit_written-IsBenign batch synced s (file, some false) k = rollback-IsBenign batch k s.index
commit_written-IsBenign batch false s (file, some true) k = rollback-IsBenign batch k s.index
commit_written-IsBenign batch true s (file, some true) k = commit_index-IsBenign batch k s.index

state-IsBenign :
    {X : Type 0} {k : Key} {e : Option Entry} (b : Bool) (s s' : State × X)
    → IsBenign k e (find k s.0.index)
    → IsBenign k e (find k s'.0.index)
    → IsBenign k e (find k (if b then s else s').0.index)
state-IsBenign true s s' u v = u
state-IsBenign false s s' u v = v

commit_batch-IsBenign :
    (batch : List PendingRec) (ws : List Write) (synced : Bool) (s : State) (k : Key)
    → IsBenign k (find k s.index) (find k (commit_batch batch ws synced s).0.index)
unfolding commit_batch with_index
commit_batch-IsBenign batch ws synced s k =
    state-IsBenign s.fd_open _ _
      (commit_written-IsBenign batch synced s (write_full ws s.file (batch_bytes batch)) k)
      (rollback-IsBenign batch k s.index)

pub flush_ready-IsBenign :
    (s : State) (now : ℕ) (ws : List Write) (synced : Bool) (k : Key)
    → IsBenign k (find k s.index) (find k (flush_ready s now ws synced).0.index)
unfolding flush_ready swap_pending
flush_ready-IsBenign s now ws synced k =
    state-IsBenign (length s.pending == 0) _ _ (refl-IsBenign k (find k s.index)) (
      state-IsBenign (is_ready s now) _ _
        (commit_batch-IsBenign s.pending ws synced (swap_pending s) k)
        (refl-IsBenign k (find k s.index)))
