-- ===== src/Channel/Outcomes.antt =====
-- Channel.antt: what each locked part of a method does to the reservations and to the contents.
use ultra_net.Prelude.{
  ℕ, suc, ◌+◌, ◌^◌, ◌<◌, ◌≡◌, refl, sym, ap, ◌∙◌, ◌⊎◌, inl, inr, List, [], ◌∷◌, ◌++◌, Option, none,
  arith, append-nil,
}
use ultra_net.Channel.{
  Channel, dec, do_write, do_read, wake_one_reader, wake_one_writer, write_and_wake, read_and_wake,
}
use ultra_net.Channel.Ring.{contents, contents-do_write, contents-do_read}
use ultra_net.Channel.Grants.{
  do_write-IsOpen, do_read-IsOpen, reserved_write-IsOpen, reserved_read-IsOpen,
}
use ultra_net.Channel.Reserve.{
  List-cases, add_woken, IsOpen, IsShut, no_reader_case, woken_reader_case, no_writer_case,
  woken_writer_case, wake_one_reader-IsOpen, wake_one_writer-IsOpen,
}

module _ {ℓ} {A : Type ℓ} (capacity : ℕ) (default : A) where
  abbrev pub IsSound : ℕ → ℕ → ℕ → Channel A → Type 0
  IsSound n rs ws c = IsOpen capacity 0 0 n rs ws c ⊎ IsShut capacity n rs ws c

  -- The channel keeps its invariant, and `xs` comes behind what it held.
  pub record IsPut (n rs ws : ℕ) (c : Channel A) (h : Option ℕ) (xs : List A) (c' : Channel A)
      : Type ℓ where
    pub sound : IsSound n (add_woken h rs) ws c'
    pub more : contents capacity default c' ≡ contents capacity default c ++ xs

  -- The channel keeps its invariant, and `xs` was the front of what it held.
  pub record IsGot (n rs ws : ℕ) (c : Channel A) (h : Option ℕ) (xs : List A) (c' : Channel A)
      : Type ℓ where
    pub sound : IsSound n rs (add_woken h ws) c'
    pub less : contents capacity default c ≡ xs ++ contents capacity default c'

  contents-wake_one_reader :
      (c : Channel A)
      → contents capacity default (wake_one_reader c).1 ≡ contents capacity default c
  unfolding contents
  contents-wake_one_reader c = elim (List-cases c.readers) [
    | inl e ↦ ap (λ r. contents capacity default r.1) (no_reader_case c e)
    | inr (h, hs, e) ↦ ap (λ r. contents capacity default r.1) (woken_reader_case c h hs e)
  ]

  contents-wake_one_writer :
      (c : Channel A)
      → contents capacity default (wake_one_writer c).1 ≡ contents capacity default c
  unfolding contents
  contents-wake_one_writer c = elim (List-cases c.writers) [
    | inl e ↦ ap (λ r. contents capacity default r.1) (no_writer_case c e)
    | inr (h, hs, e) ↦ ap (λ r. contents capacity default r.1) (woken_writer_case c h hs e)
  ]

  module _ {n rs ws : ℕ} (small : capacity < 2 ^ 64) (few : n < 2 ^ 64) where
    pub fresh-IsPut :
        (c : Channel A) (a : A)
        → IsOpen capacity 0 0 n rs ws c
        → c.count + c.write_reserved < capacity
        → IsPut n rs ws c (write_and_wake capacity c a).0 (a ∷ []) (write_and_wake capacity c a).1
    unfolding write_and_wake
    fresh-IsPut c a v room = record {
      sound = inl (wake_one_reader-IsOpen _ few (do_write-IsOpen c a small v room));
      more =
          contents-wake_one_reader (do_write capacity c a)
          ∙ contents-do_write capacity default c a small v.ring (omega (arith, room));
    }

    pub reserved-IsPut :
        (c : Channel A) (a : A)
        → IsOpen capacity 0 0 n rs (suc ws) c
        → IsPut n rs ws c
            (wake_one_reader
              (record (do_write capacity c a) { write_reserved = dec c.write_reserved })).0
            (a ∷ [])
            (wake_one_reader
              (record (do_write capacity c a) { write_reserved = dec c.write_reserved })).1
    unfolding contents
    reserved-IsPut c a v = record {
      sound = inl (wake_one_reader-IsOpen _ few (reserved_write-IsOpen c a small v));
      more =
          contents-wake_one_reader
            (record (do_write capacity c a) { write_reserved = dec c.write_reserved })
          ∙ contents-do_write capacity default c a small v.ring
              (omega (arith, v.room, v.writers_hold));
    }

    pub nothing-IsPut : (c : Channel A) → IsSound n rs ws c → IsPut n rs ws c none [] c
    unfolding add_woken
    nothing-IsPut c v = record { sound = v; more = sym (append-nil (contents capacity default c)) }

    pub fresh-IsGot :
        (c : Channel A)
        → IsOpen capacity 0 0 n rs ws c
        → c.read_reserved < c.count
        → IsGot n rs ws c
            (read_and_wake capacity default c).1
            ((read_and_wake capacity default c).0 ∷ [])
            (read_and_wake capacity default c).2
    unfolding read_and_wake
    fresh-IsGot c v spare = record {
      sound = inl (wake_one_writer-IsOpen _ few (do_read-IsOpen default c small v spare));
      less =
          contents-do_read capacity default c (omega (arith, v.ring.fits, small))
            (omega (arith, spare))
          ∙ ap (λ xs. (do_read capacity default c).0 ∷ xs)
              (sym (contents-wake_one_writer (do_read capacity default c).1));
    }

    pub reserved-IsGot :
        (c : Channel A)
        → IsOpen capacity 0 0 n (suc rs) ws c
        → IsGot n rs ws c
            (wake_one_writer
              (record (do_read capacity default c).1 { read_reserved = dec c.read_reserved })).0
            ((do_read capacity default c).0 ∷ [])
            (wake_one_writer
              (record (do_read capacity default c).1 { read_reserved = dec c.read_reserved })).1
    unfolding contents
    reserved-IsGot c v = record {
      sound = inl (wake_one_writer-IsOpen _ few (reserved_read-IsOpen default c small v));
      less =
          contents-do_read capacity default c (omega (arith, v.ring.fits, small))
            (omega (arith, v.backed, v.readers_hold))
          ∙ ap (λ xs. (do_read capacity default c).0 ∷ xs)
              (sym (
                contents-wake_one_writer
                  (record (do_read capacity default c).1 { read_reserved = dec c.read_reserved })));
    }

    pub nothing-IsGot : (c : Channel A) → IsSound n rs ws c → IsGot n rs ws c none [] c
    unfolding add_woken
    nothing-IsGot c v = record { sound = v; less = refl }
