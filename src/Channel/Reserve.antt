-- ===== src/Channel/Reserve.antt =====
-- Channel.antt: what the reservations of an open and of a closed channel stand for.
use ultra_net.Prelude.{
  ℕ, suc, ◌+◌, ◌^◌, ◌≤◌, ◌<◌, ◌≡◌, refl, sym, ap, subst, ◌⊎◌, inl, inr, true, false, List, [], ◌∷◌,
  Option, none, some, arith, length, inc64,
}
use ultra_net.Channel.{Channel, wake_one_reader, wake_one_writer}
use ultra_net.Channel.Ring.{IsRing, inc64-small}

-- A count of woken coroutines, and the one of a handle to schedule, if there is one.
unfoldable pub add_woken : Option ℕ → ℕ → ℕ
add_woken none k = k
add_woken (some h) k = suc k

module _ {ℓ} {A : Type ℓ} (capacity : ℕ) where
  -- An open channel, of which `extra` elements and `freed` places are not handed out yet: each woken
  -- reader and each woken writer that has not run holds a reservation, a reserved element is there, a
  -- reserved place is free, and coroutines wait only if all else is reserved.
  pub record IsOpen (extra freed n readers_woken writers_woken : ℕ) (c : Channel A) : Type 0 where
    pub open_still : c.closed ≡ false
    pub ring : IsRing capacity c
    pub backed : extra + c.read_reserved ≤ c.count
    pub room : freed + c.count + c.write_reserved ≤ capacity
    pub readers_hold : c.read_reserved ≡ readers_woken
    pub writers_hold : c.write_reserved ≡ writers_woken
    pub readers_wait : (length c.readers ≡ 0) ⊎ (c.count ≤ extra + c.read_reserved)
    pub writers_wait : (length c.writers ≡ 0) ⊎ (capacity ≤ freed + c.count + c.write_reserved)
    pub readers_fit : length c.readers + c.read_reserved ≤ n
    pub writers_fit : length c.writers + c.write_reserved ≤ n

  pub record IsShut (n readers_woken writers_woken : ℕ) (c : Channel A) : Type 0 where
    pub shut : c.closed ≡ true
    pub ring : IsRing capacity c
    pub readers_hold : c.read_reserved ≡ readers_woken
    pub writers_hold : c.write_reserved ≡ writers_woken
    pub no_readers : length c.readers ≡ 0
    pub no_writers : length c.writers ≡ 0
    pub readers_fit : c.read_reserved ≤ n
    pub writers_fit : c.write_reserved ≤ n

pub List-cases {ℓ} :
    {A : Type ℓ} (xs : List A) → (xs ≡ []) ⊎ ((x : A) × (rest : List A) × (xs ≡ x ∷ rest))
List-cases [] = inl refl
List-cases (x ∷ xs) = inr (x, xs, refl)

module _ {ℓ} {A : Type ℓ} where
  pub no_reader_case : (c : Channel A) → c.readers ≡ [] → wake_one_reader c ≡ (none, c)
  unfolding wake_one_reader
  no_reader_case c e = rw e refl

  pub woken_reader_case :
      (c : Channel A) (h : ℕ) (hs : List ℕ)
      → c.readers ≡ h ∷ hs
      → wake_one_reader c
        ≡ (some h, record c { read_reserved = inc64 c.read_reserved; readers = hs })
  unfolding wake_one_reader
  woken_reader_case c h hs e = rw e refl

  pub no_writer_case : (c : Channel A) → c.writers ≡ [] → wake_one_writer c ≡ (none, c)
  unfolding wake_one_writer
  no_writer_case c e = rw e refl

  pub woken_writer_case :
      (c : Channel A) (h : ℕ) (hs : List ℕ)
      → c.writers ≡ h ∷ hs
      → wake_one_writer c
        ≡ (some h, record c { write_reserved = inc64 c.write_reserved; writers = hs })
  unfolding wake_one_writer
  woken_writer_case c h hs e = rw e refl

module _ {ℓ} {A : Type ℓ} {capacity n readers_woken writers_woken : ℕ} where
  -- The element that a write adds goes to a reader that waits, or is there for anyone.
  pub wake_one_reader-IsOpen :
      (c : Channel A)
      → n < 2 ^ 64
      → IsOpen capacity 1 0 n readers_woken writers_woken c
      → IsOpen capacity 0 0 n
          (add_woken (wake_one_reader c).0 readers_woken)
          writers_woken
          (wake_one_reader c).1
  unfolding add_woken
  wake_one_reader-IsOpen c small v = elim (List-cases c.readers) [
    | inl e ↦
        subst (λ r. IsOpen capacity 0 0 n (add_woken r.0 readers_woken) writers_woken r.1)
          (sym (no_reader_case c e))
          (record {
            open_still = v.open_still;
            ring = v.ring;
            backed = omega (arith, v.backed);
            room = v.room;
            readers_hold = v.readers_hold;
            writers_hold = v.writers_hold;
            readers_wait = inl (ap length e);
            writers_wait = v.writers_wait;
            readers_fit = v.readers_fit;
            writers_fit = v.writers_fit;
          })
    | inr (h, hs, e) ↦
        let long = ap length e in
        let more = inc64-small c.read_reserved (omega (arith, long, v.readers_fit)) in
        subst (λ r. IsOpen capacity 0 0 n (add_woken r.0 readers_woken) writers_woken r.1)
          (sym (woken_reader_case c h hs e))
          (record {
            open_still = v.open_still;
            ring = v.ring;
            backed = omega (arith, more, v.backed);
            room = v.room;
            readers_hold = omega (arith, more, v.readers_hold);
            writers_hold = v.writers_hold;
            readers_wait = ground (arith, more, v.readers_wait);
            writers_wait = v.writers_wait;
            readers_fit = omega (arith, more, long, v.readers_fit);
            writers_fit = v.writers_fit;
          })
  ]

  pub wake_one_writer-IsOpen :
      (c : Channel A)
      → n < 2 ^ 64
      → IsOpen capacity 0 1 n readers_woken writers_woken c
      → IsOpen capacity 0 0 n readers_woken
          (add_woken (wake_one_writer c).0 writers_woken)
          (wake_one_writer c).1
  unfolding add_woken
  wake_one_writer-IsOpen c small v = elim (List-cases c.writers) [
    | inl e ↦
        subst (λ r. IsOpen capacity 0 0 n readers_woken (add_woken r.0 writers_woken) r.1)
          (sym (no_writer_case c e))
          (record {
            open_still = v.open_still;
            ring = v.ring;
            backed = v.backed;
            room = omega (arith, v.room);
            readers_hold = v.readers_hold;
            writers_hold = v.writers_hold;
            readers_wait = v.readers_wait;
            writers_wait = inl (ap length e);
            readers_fit = v.readers_fit;
            writers_fit = v.writers_fit;
          })
    | inr (h, hs, e) ↦
        let long = ap length e in
        let more = inc64-small c.write_reserved (omega (arith, long, v.writers_fit)) in
        subst (λ r. IsOpen capacity 0 0 n readers_woken (add_woken r.0 writers_woken) r.1)
          (sym (woken_writer_case c h hs e))
          (record {
            open_still = v.open_still;
            ring = v.ring;
            backed = v.backed;
            room = omega (arith, more, v.room);
            readers_hold = v.readers_hold;
            writers_hold = omega (arith, more, v.writers_hold);
            readers_wait = v.readers_wait;
            writers_wait = ground (arith, more, v.writers_wait);
            readers_fit = v.readers_fit;
            writers_fit = omega (arith, more, long, v.writers_fit);
          })
  ]
