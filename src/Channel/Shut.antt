-- ===== src/Channel/Shut.antt =====
-- Channel.antt: what a closed channel still does.
use ultra_net.Prelude.{
  ℕ, suc, ◌^◌, ◌<◌, ◌≡◌, refl, sym, subst, ap, inl, inr, [], ◌∷◌, none, arith, length, append-nil,
}
use ultra_net.Channel.{Channel, dec, do_read, wake_one_writer, read_and_wake}
use ultra_net.Channel.Ring.{dec-pos, contents, contents-do_read, do_read-IsRing}
use ultra_net.Channel.Outcomes.{IsPut, IsGot}
use ultra_net.Channel.Reserve.{List-cases, add_woken, IsShut, no_writer_case}

no_writer_waits {ℓ} :
    {A : Type ℓ} (c : Channel A) → length c.writers ≡ 0 → wake_one_writer c ≡ (none, c)
no_writer_waits c h = elim (List-cases c.writers) [
  | inl e ↦ no_writer_case c e
  | inr (w, rest, e) ↦ absurd (omega (arith, ap length e, h))
]

module _ {ℓ} {A : Type ℓ} (capacity : ℕ) (default : A) where
  module _ {n rs ws : ℕ} (small : capacity < 2 ^ 64) (few : n < 2 ^ 64) where
    do_read-IsShut :
        (c : Channel A)
        → IsShut capacity n rs ws c
        → 0 < c.count
        → IsShut capacity n rs ws (do_read capacity default c).1
    unfolding do_read
    do_read-IsShut c v some_left = record {
      shut = v.shut;
      ring = do_read-IsRing capacity default c small v.ring some_left;
      readers_hold = v.readers_hold;
      writers_hold = v.writers_hold;
      no_readers = v.no_readers;
      no_writers = v.no_writers;
      readers_fit = v.readers_fit;
      writers_fit = v.writers_fit;
    }

    released-IsShut :
        (c : Channel A)
        → IsShut capacity n (suc rs) ws c
        → IsShut capacity n rs ws (record c { read_reserved = dec c.read_reserved })
    released-IsShut c v =
        let less =
          dec-pos c.read_reserved (omega (arith, v.readers_hold))
            (omega (arith, v.readers_fit, few)) in
        record {
          shut = v.shut;
          ring = v.ring;
          readers_hold = omega (arith, less, v.readers_hold);
          writers_hold = v.writers_hold;
          no_readers = v.no_readers;
          no_writers = v.no_writers;
          readers_fit = omega (arith, less, v.readers_fit);
          writers_fit = v.writers_fit;
        }

    reserved_read-IsShut :
        (c : Channel A)
        → IsShut capacity n (suc rs) ws c
        → 0 < c.count
        → IsShut capacity n rs ws
            (record (do_read capacity default c).1 { read_reserved = dec c.read_reserved })
    unfolding do_read
    reserved_read-IsShut c v some_left =
        do_read-IsShut (record c { read_reserved = dec c.read_reserved }) (released-IsShut c v)
          some_left

    pub released-IsPut :
        (c : Channel A)
        → IsShut capacity n rs (suc ws) c
        → IsPut capacity default n rs ws c none []
            (record c { write_reserved = dec c.write_reserved })
    unfolding contents add_woken
    released-IsPut c v =
        let less =
          dec-pos c.write_reserved (omega (arith, v.writers_hold))
            (omega (arith, v.writers_fit, few)) in
        record {
          sound = inr (record {
            shut = v.shut;
            ring = v.ring;
            readers_hold = v.readers_hold;
            writers_hold = omega (arith, less, v.writers_hold);
            no_readers = v.no_readers;
            no_writers = v.no_writers;
            readers_fit = v.readers_fit;
            writers_fit = omega (arith, less, v.writers_fit);
          });
          more = sym (append-nil (contents capacity default c));
        }

    shut-IsGot :
        (c d : Channel A)
        → IsShut capacity n rs ws d
        → contents capacity default c ≡ (do_read capacity default c).0 ∷ contents capacity default d
        → IsGot capacity default n rs ws c
            (wake_one_writer d).0
            ((do_read capacity default c).0 ∷ [])
            (wake_one_writer d).1
    unfolding add_woken
    shut-IsGot c d v e =
        subst (λ r. IsGot capacity default n rs ws c r.0 ((do_read capacity default c).0 ∷ []) r.1)
          (sym (no_writer_waits d v.no_writers)) (record { sound = inr v; less = e })

    pub read_and_wake-IsGot :
        (c : Channel A)
        → IsShut capacity n rs ws c
        → c.read_reserved < c.count
        → IsGot capacity default n rs ws c
            (read_and_wake capacity default c).1
            ((read_and_wake capacity default c).0 ∷ [])
            (read_and_wake capacity default c).2
    unfolding read_and_wake
    read_and_wake-IsGot c v spare = shut-IsGot c _ (do_read-IsShut c v (omega (arith, spare))) (
        contents-do_read capacity default c (omega (arith, v.ring.fits, small))
          (omega (arith, spare)))

    pub shut_reserved-IsGot :
        (c : Channel A)
        → IsShut capacity n (suc rs) ws c
        → 0 < c.count
        → IsGot capacity default n rs ws c
            (wake_one_writer
              (record (do_read capacity default c).1 { read_reserved = dec c.read_reserved })).0
            ((do_read capacity default c).0 ∷ [])
            (wake_one_writer
              (record (do_read capacity default c).1 { read_reserved = dec c.read_reserved })).1
    unfolding contents
    shut_reserved-IsGot c v some_left =
        shut-IsGot c _ (reserved_read-IsShut c v some_left)
          (contents-do_read capacity default c (omega (arith, v.ring.fits, small)) some_left)

    pub shut_empty-IsGot :
        (c : Channel A)
        → IsShut capacity n (suc rs) ws c
        → IsGot capacity default n rs ws c none []
            (record c { read_reserved = dec c.read_reserved })
    unfolding contents add_woken
    shut_empty-IsGot c v = record { sound = inr (released-IsShut c v); less = refl }
