-- ===== src/Channel/Ring.antt =====
-- Channel.antt: the buffer as a queue.
use ultra_net.Prelude.{
  ℕ, zero, suc, ◌+◌, ◌^◌, ◌≤◌, ◌<◌, ◌≡◌, refl, sym, subst, ap, ◌∙◌, ◌≢◌, inc64, ◌⊎◌, inl, List, [],
  ◌∷◌, ◌++◌, arith, length, length-set, get_or, set, get_or-set_self, get_or-set_ne,
  length-replicate,
}
use ultra_net.Channel.{Channel, dec, new, advance, do_write, do_read}

pub inc64-small : (n : ℕ) → n + 1 < 2 ^ 64 → inc64 n ≡ suc n
inc64-small n h = omega arith

pub dec-pos : (n : ℕ) → 0 < n → n < 2 ^ 64 → suc (dec n) ≡ n
unfolding dec
dec-pos n p h = omega arith

module _ (capacity : ℕ) where
  -- `q` is `n` steps of `advance` from `p`.
  unfoldable pub IsAhead : ℕ → ℕ → ℕ → Type 0
  IsAhead p n q = (q < capacity) × ((q ≡ p + n) ⊎ (q + capacity ≡ p + n))

  advance_cases :
      (p : ℕ)
      → capacity < 2 ^ 64
      → p < capacity
      → ((suc p < capacity) × (advance capacity p ≡ suc p))
        ⊎ ((suc p ≡ capacity) × (advance capacity p ≡ 0))
  unfolding advance
  advance_cases p small h = ground arith

  advance-lt : (p : ℕ) → capacity < 2 ^ 64 → p < capacity → advance capacity p < capacity
  advance-lt p small h = ground (arith, advance_cases p small h)

  -- Fewer than `capacity` steps do not come back, and one step from `p` leaves one less.
  IsAhead-advance :
      (p m q : ℕ)
      → capacity < 2 ^ 64
      → p < capacity
      → IsAhead p (suc m) q
      → IsAhead (advance capacity p) m q
  unfolding IsAhead
  IsAhead-advance p m q small hp far = ground (arith, advance_cases p small hp)

  IsAhead-ne : (p m q : ℕ) → suc m < capacity → IsAhead p (suc m) q → q ≢ p
  unfolding IsAhead
  IsAhead-ne p m q hm far e = ground arith

  IsAhead-zero : (p q : ℕ) → p < capacity → IsAhead p 0 q → q ≡ p
  unfolding IsAhead
  IsAhead-zero p q hp far = ground arith

  IsAhead-more :
      (p n q : ℕ)
      → capacity < 2 ^ 64
      → p < capacity
      → n < capacity
      → IsAhead p n q
      → IsAhead p (suc n) (advance capacity q)
  unfolding IsAhead
  IsAhead-more p n q small hp hn far = ground (arith, advance_cases q small far.0)

module _ {ℓ} {A : Type ℓ} (capacity : ℕ) where
  unfoldable pub window : A → List A → ℕ → ℕ → List A
  window default buffer pos zero = []
  window default buffer pos (suc n) =
      get_or buffer pos default ∷ window default buffer (advance capacity pos) n

  -- What the channel holds, the oldest element first.
  unfoldable pub contents : A → Channel A → List A
  contents default c = window default c.buffer c.read_pos c.count

  pub record IsRingOf (buffer : List A) (read_pos count write_pos : ℕ) : Type 0 where
    pub full_length : length buffer ≡ capacity
    pub in_range : read_pos < capacity
    pub fits : count ≤ capacity
    pub ahead : IsAhead capacity read_pos count write_pos

  abbrev pub IsRing : Channel A → Type 0
  IsRing c = IsRingOf c.buffer c.read_pos c.count c.write_pos

  module _ (default : A) where
    window-set :
        (buffer : List A) (p m n q : ℕ) (a : A)
        → capacity < 2 ^ 64
        → p < capacity
        → n ≤ m
        → m < capacity
        → IsAhead capacity p m q
        → window default (set buffer q a) p n ≡ window default buffer p n
    unfolding window
    window-set buffer p m zero q a small hp hn hm far = refl
    window-set buffer p zero (suc n) q a small hp hn hm far = absurd (omega arith)
    window-set buffer p (suc m) (suc n) q a small hp hn hm far =
        rw
          (
            get_or-set_ne buffer a default (IsAhead-ne capacity p m q hm far),
            window-set buffer (advance capacity p) m n q a small (advance-lt capacity p small hp)
                (omega arith) (omega arith) (IsAhead-advance capacity p m q small hp far),
          )
          refl

    window-suc :
        (buffer : List A) (p n : ℕ)
        → window default buffer p (suc n)
          ≡ get_or buffer p default ∷ window default buffer (advance capacity p) n
    unfolding window
    window-suc buffer p n = refl

    -- A write where the window ends makes it longer by the element.
    window-set_end :
        (buffer : List A) (p n q : ℕ) (a : A)
        → capacity < 2 ^ 64
        → length buffer ≡ capacity
        → p < capacity
        → n < capacity
        → IsAhead capacity p n q
        → window default (set buffer q a) p (suc n) ≡ window default buffer p n ++ (a ∷ [])
    unfolding window
    window-set_end buffer p zero q a small len hp hn far =
        rw (IsAhead-zero capacity p q hp far)
          (ap (λ x. x ∷ []) (get_or-set_self buffer p a default (omega (arith, len))))
    window-set_end buffer p (suc n) q a small len hp hn far =
        rw
          (
            get_or-set_ne buffer a default (IsAhead-ne capacity p n q hn far),
            window-set_end buffer (advance capacity p) n q a small len
                (advance-lt capacity p small hp) (omega arith)
                (IsAhead-advance capacity p n q small hp far),
          )
          refl

    -- A write into a channel with room adds the value behind its contents.
    pub contents-do_write :
        (c : Channel A) (a : A)
        → capacity < 2 ^ 64
        → IsRing c
        → c.count < capacity
        → contents default (do_write capacity c a) ≡ contents default c ++ (a ∷ [])
    unfolding contents do_write
    contents-do_write c a small v room = rw (inc64-small c.count (omega arith)) (
        window-set_end c.buffer c.read_pos c.count c.write_pos a small v.full_length v.in_range room
          v.ahead)

    -- A read of a channel that is not empty takes the first element of its contents.
    pub contents-do_read :
        (c : Channel A)
        → c.count < 2 ^ 64
        → 0 < c.count
        → contents default c
          ≡ (do_read capacity default c).0 ∷ contents default (do_read capacity default c).1
    unfolding contents do_read
    contents-do_read c small some_left =
        subst
          (λ n.
            window default c.buffer c.read_pos n
            ≡ get_or c.buffer c.read_pos default
              ∷ window default c.buffer (advance capacity c.read_pos) (dec c.count))
          (dec-pos c.count some_left small) (window-suc c.buffer c.read_pos (dec c.count))

  pub do_write-IsRing :
      (c : Channel A) (a : A)
      → capacity < 2 ^ 64
      → IsRing c
      → c.count < capacity
      → IsRing (do_write capacity c a)
  unfolding do_write
  do_write-IsRing c a small v room = record {
    full_length = length-set c.buffer c.write_pos a ∙ v.full_length;
    in_range = v.in_range;
    fits = omega (arith, inc64-small c.count (omega arith));
    ahead =
        rw (inc64-small c.count (omega arith))
          (IsAhead-more capacity c.read_pos c.count c.write_pos small v.in_range room v.ahead);
  }

  pub do_read-IsRing :
      (default : A) (c : Channel A)
      → capacity < 2 ^ 64
      → IsRing c
      → 0 < c.count
      → IsRing (do_read capacity default c).1
  unfolding do_read
  do_read-IsRing default c small v some_left =
      let less = dec-pos c.count some_left (omega (arith, v.fits)) in
      record {
        full_length = v.full_length;
        in_range = advance-lt capacity c.read_pos small v.in_range;
        fits = omega (arith, less, v.fits);
        ahead =
            IsAhead-advance capacity c.read_pos (dec c.count) c.write_pos small v.in_range
              (subst (λ n. IsAhead capacity c.read_pos n c.write_pos) (sym less) v.ahead);
      }

  pub new-IsRing : (default : A) → 0 < capacity → IsRing (new capacity default)
  unfolding new IsAhead
  new-IsRing default h = record {
    full_length = length-replicate capacity default;
    in_range = h;
    fits = omega arith;
    ahead = (h, inl refl);
  }

  pub contents-new : (default : A) → contents default (new capacity default) ≡ []
  unfolding contents new window
  contents-new default = refl
