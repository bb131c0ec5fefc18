-- ===== src/Delivery/Distinct.antt =====
-- Delivery.antt: the receiver's log has one entry for a message.
use ultra_net.Prelude.{
  ℕ, ◌≡◌, sym, subst, ap, ◌∙◌, inl, inr, Bool, true, false, List, [], ◌∷◌, Option, none, some,
  arith, ◌==◌, if◌then◌else◌, Bytes, Bool-cases, Option-cases, length,
}
use ultra_net.ReceiverLog.Index.{
  Key, Entry, Item, same, same_eq, find, modify, erase, emplace, contains, find-modify_ne,
  find-modify_none, find-erase_self, find-erase_ne,
}
use ultra_net.ReceiverLog.State.{
  PendingRec, State, with_index, new_entry, buffer_data, buffer_handled, put_reply_conn,
}
use ultra_net.ReceiverLog.Flush.{
  Write, erase_unpersisted, rollback, put_persisted, put_handled, commit_rec, commit_index,
  committed, with_file, commit_written, commit_batch, swap_pending, is_ready, flush_ready,
  write_full, batch_bytes,
}
use ultra_net.Delivery.Held.{
  emplace_known, buffer_data_known, buffer_data_new, buffer_handled_index,
}
use ultra_net.Delivery.Flushes.{unpersisted_none, unpersisted_some}

unfoldable pub IsDistinct : List Item → Type 0
IsDistinct [] = Unit
IsDistinct (i ∷ m) = (find i.id m ≡ none) × IsDistinct m

branch-IsDistinct :
    (b : Bool) (m n : List Item) → IsDistinct m → IsDistinct n → IsDistinct (if b then m else n)
branch-IsDistinct true m n u v = u
branch-IsDistinct false m n u v = v

find-modify_absent :
    (j k : Key) (f : Entry → Entry) (m : List Item) → find k m ≡ none → find k (modify j f m) ≡ none
find-modify_absent j k f m n = elim (Bool-cases (same k j)) [
  | inr o ↦ find-modify_ne j k f m o ∙ n
  | inl t ↦
      ap (find k) (find-modify_none j f m (subst (λ i. find i m ≡ none) (same_eq k j t) n)) ∙ n
]

find-erase_absent : (j k : Key) (m : List Item) → find k m ≡ none → find k (erase j m) ≡ none
find-erase_absent j k m n = elim (Bool-cases (same k j)) [
  | inr o ↦ find-erase_ne j k m o ∙ n
  | inl t ↦ subst (λ i. find i (erase j m) ≡ none) (sym (same_eq k j t)) (find-erase_self j m)
]

pub modify-IsDistinct :
    (j : Key) (f : Entry → Entry) (m : List Item) → IsDistinct m → IsDistinct (modify j f m)
unfolding modify IsDistinct
modify-IsDistinct j f [] v = v
modify-IsDistinct j f (i ∷ m) (n, v) =
    branch-IsDistinct (same j i.id) _ _ (n, v)
      (find-modify_absent j i.id f m n, modify-IsDistinct j f m v)

pub erase-IsDistinct : (j : Key) (m : List Item) → IsDistinct m → IsDistinct (erase j m)
unfolding erase IsDistinct
erase-IsDistinct j [] v = v
erase-IsDistinct j (i ∷ m) (n, v) =
    branch-IsDistinct (same j i.id) _ _ (erase-IsDistinct j m v)
      (find-erase_absent j i.id m n, erase-IsDistinct j m v)

emplace_new :
    (j : Key) (e : Entry) (m : List Item)
    → find j m ≡ none
    → emplace j e m ≡ record { id = j; entry = e } ∷ m
unfolding emplace
emplace_new j e m n = ground (arith, n)

emplace-IsDistinct :
    (j : Key) (e : Entry) (m : List Item) → IsDistinct m → IsDistinct (emplace j e m)
unfolding IsDistinct
emplace-IsDistinct j e m v = elim (Option-cases (find j m)) [
  | inl n ↦ subst IsDistinct (sym (emplace_new j e m n)) (n, v)
  | inr (x, s) ↦ subst IsDistinct (sym (emplace_known j e m s)) v
]

pub buffer_data-IsDistinct :
    (s : State) (now : ℕ) (j : Key) (frame : Bytes) (conn : ℕ)
    → IsDistinct s.index
    → IsDistinct (buffer_data s now j frame conn).0.index
buffer_data-IsDistinct s now j frame conn v = elim (Bool-cases (contains j s.index)) [
  | inl t ↦ subst IsDistinct (sym (buffer_data_known s now j frame conn t)) v
  | inr o ↦
      subst IsDistinct (sym (buffer_data_new s now j frame conn o))
        (emplace-IsDistinct j (new_entry frame conn) s.index v)
]

pub buffer_handled-IsDistinct :
    (s : State) (now : ℕ) (j : Key) (conn : ℕ)
    → IsDistinct s.index
    → IsDistinct (buffer_handled s now j conn).index
buffer_handled-IsDistinct s now j conn v =
    subst IsDistinct (sym (buffer_handled_index s now j conn)) (
      branch-IsDistinct (contains j s.index) _ _
        (modify-IsDistinct j (put_reply_conn conn) s.index v) v)

commit_rec-IsDistinct :
    (r : PendingRec) (m : List Item) → IsDistinct m → IsDistinct (commit_rec r m)
unfolding commit_rec
commit_rec-IsDistinct r m v =
    branch-IsDistinct (r.type == 1) _ _ (modify-IsDistinct r.id put_persisted m v)
      (branch-IsDistinct (r.type == 2) _ _ (modify-IsDistinct r.id put_handled m v) v)

commit_index-IsDistinct :
    (rs : List PendingRec) (m : List Item) → IsDistinct m → IsDistinct (commit_index rs m)
unfolding commit_index
commit_index-IsDistinct [] m v = v
commit_index-IsDistinct (r ∷ rs) m v =
    commit_index-IsDistinct rs (commit_rec r m) (commit_rec-IsDistinct r m v)

erase_unpersisted-IsDistinct :
    (j : Key) (m : List Item) → IsDistinct m → IsDistinct (erase_unpersisted j m)
erase_unpersisted-IsDistinct j m v = elim (Option-cases (find j m)) [
  | inl n ↦ subst IsDistinct (sym (unpersisted_none j m n)) v
  | inr (e, s) ↦
      subst IsDistinct (sym (unpersisted_some j m e s))
        (branch-IsDistinct e.persisted _ _ v (erase-IsDistinct j m v))
]

rollback-IsDistinct :
    (rs : List PendingRec) (m : List Item) → IsDistinct m → IsDistinct (rollback rs m)
unfolding rollback
rollback-IsDistinct [] m v = v
rollback-IsDistinct (r ∷ rs) m v =
    rollback-IsDistinct rs (if r.type == 1 then erase_unpersisted r.id m else m)
      (branch-IsDistinct (r.type == 1) _ _ (erase_unpersisted-IsDistinct r.id m v) v)

commit_written-IsDistinct :
    (batch : List PendingRec) (synced : Bool) (s : State) (w : Bytes × Option Bool)
    → IsDistinct s.index
    → IsDistinct (commit_written batch synced s w).0.index
unfolding commit_written with_index with_file committed
commit_written-IsDistinct batch synced s (file, none) v = v
commit_written-IsDistinct batch synced s (file, some false) v = rollback-IsDistinct batch s.index v
commit_written-IsDistinct batch false s (file, some true) v = rollback-IsDistinct batch s.index v
commit_written-IsDistinct batch true s (file, some true) v = commit_index-IsDistinct batch s.index v

state-IsDistinct :
    {X : Type 0} (b : Bool) (s s' : State × X)
    → IsDistinct s.0.index
    → IsDistinct s'.0.index
    → IsDistinct (if b then s else s').0.index
state-IsDistinct true s s' u v = u
state-IsDistinct false s s' u v = v

pub flush_ready-IsDistinct :
    (s : State) (now : ℕ) (ws : List Write) (synced : Bool)
    → IsDistinct s.index
    → IsDistinct (flush_ready s now ws synced).0.index
unfolding flush_ready swap_pending commit_batch with_index
flush_ready-IsDistinct s now ws synced v = state-IsDistinct (length s.pending == 0) _ _ v (
    state-IsDistinct (is_ready s now) _ _
      (state-IsDistinct s.fd_open _ _
        (commit_written-IsDistinct s.pending synced (swap_pending s)
          (write_full ws s.file (batch_bytes s.pending)) v)
        (rollback-IsDistinct s.pending s.index v))
      v)
