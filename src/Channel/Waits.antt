-- ===== src/Channel/Waits.antt =====
-- Channel.antt: the step by which a coroutine starts to wait, and `close`.
use ultra_net.Prelude.{
  length-append, append-nil, ℕ, suc, ◌+◌, ◌^◌, ◌≤◌, ◌<◌, ◌≡◌, refl, sym, inl, inr, not, ◌&&◌, [],
  ◌∷◌, ◌++◌, none, arith, length,
}
use ultra_net.Channel.{Channel, close}
use ultra_net.Channel.Await.{read, write_suspend, read_suspend}
use ultra_net.Channel.Ring.{contents}
use ultra_net.Channel.Sound.{room_exact}
use ultra_net.Channel.Reserve.{add_woken, IsOpen, IsShut}
use ultra_net.Channel.Outcomes.{
  IsSound, IsPut, IsGot, fresh-IsPut, nothing-IsPut, fresh-IsGot, nothing-IsGot,
}
use ultra_net.Channel.Shut.{read_and_wake-IsGot}
use ultra_net.Channel.Steps.{blocked, accepted, taken}

module _ {ℓ} {A : Type ℓ} {capacity n rs ws : ℕ} where
  -- A later bound on the number of coroutines.
  more_coroutines-IsOpen :
      (c : Channel A) → IsOpen capacity 0 0 n rs ws c → IsOpen capacity 0 0 (suc n) rs ws c
  more_coroutines-IsOpen c v = record {
    open_still = v.open_still;
    ring = v.ring;
    backed = v.backed;
    room = v.room;
    readers_hold = v.readers_hold;
    writers_hold = v.writers_hold;
    readers_wait = v.readers_wait;
    writers_wait = v.writers_wait;
    readers_fit = omega (arith, v.readers_fit);
    writers_fit = omega (arith, v.writers_fit);
  }

  more_coroutines-IsShut :
      (c : Channel A) → IsShut capacity n rs ws c → IsShut capacity (suc n) rs ws c
  more_coroutines-IsShut c v = record {
    shut = v.shut;
    ring = v.ring;
    readers_hold = v.readers_hold;
    writers_hold = v.writers_hold;
    no_readers = v.no_readers;
    no_writers = v.no_writers;
    readers_fit = omega (arith, v.readers_fit);
    writers_fit = omega (arith, v.writers_fit);
  }

  pub IsSound-suc :
      (default : A) (c : Channel A)
      → IsSound capacity default n rs ws c
      → IsSound capacity default (suc n) rs ws c
  IsSound-suc default c (inl v) = inl (more_coroutines-IsOpen c v)
  IsSound-suc default c (inr v) = inr (more_coroutines-IsShut c v)

  writer_waits-IsOpen :
      (c : Channel A) (me : ℕ)
      → IsOpen capacity 0 0 n rs ws c
      → capacity ≤ c.count + c.write_reserved
      → IsOpen capacity 0 0 (suc n) rs ws (record c { writers = c.writers ++ (me ∷ []) })
  writer_waits-IsOpen c me v none_free = record {
    open_still = v.open_still;
    ring = v.ring;
    backed = v.backed;
    room = v.room;
    readers_hold = v.readers_hold;
    writers_hold = v.writers_hold;
    readers_wait = v.readers_wait;
    writers_wait = inr (omega (arith, none_free));
    readers_fit = omega (arith, v.readers_fit);
    writers_fit = omega (arith, v.writers_fit, length-append c.writers (me ∷ []));
  }

  reader_waits-IsOpen :
      (c : Channel A) (me : ℕ)
      → IsOpen capacity 0 0 n rs ws c
      → c.count ≤ c.read_reserved
      → IsOpen capacity 0 0 (suc n) rs ws (record c { readers = c.readers ++ (me ∷ []) })
  reader_waits-IsOpen c me v none_free = record {
    open_still = v.open_still;
    ring = v.ring;
    backed = v.backed;
    room = v.room;
    readers_hold = v.readers_hold;
    writers_hold = v.writers_hold;
    readers_wait = inr (omega (arith, none_free));
    writers_wait = v.writers_wait;
    readers_fit = omega (arith, v.readers_fit, length-append c.readers (me ∷ []));
    writers_fit = omega (arith, v.writers_fit);
  }

  close-IsShut :
      (c : Channel A)
      → n < 2 ^ 64
      → IsOpen capacity 0 0 n rs ws c
      → IsShut capacity n (rs + length c.readers) (ws + length c.writers) (close c).2
  unfolding close
  close-IsShut c few v = record {
    shut = refl;
    ring = v.ring;
    readers_hold = omega (arith, v.readers_hold, v.readers_fit, few);
    writers_hold = omega (arith, v.writers_hold, v.writers_fit, few);
    no_readers = refl;
    no_writers = refl;
    readers_fit = omega (arith, v.readers_fit, few);
    writers_fit = omega (arith, v.writers_fit, few);
  }

  close_again-IsShut :
      (c : Channel A)
      → n < 2 ^ 64
      → IsShut capacity n rs ws c
      → IsShut capacity n (rs + length c.readers) (ws + length c.writers) (close c).2
  unfolding close
  close_again-IsShut c few v = record {
    shut = refl;
    ring = v.ring;
    readers_hold = omega (arith, v.readers_hold, v.no_readers, v.readers_fit, few);
    writers_hold = omega (arith, v.writers_hold, v.no_writers, v.writers_fit, few);
    no_readers = refl;
    no_writers = refl;
    readers_fit = omega (arith, v.readers_fit, v.no_readers, few);
    writers_fit = omega (arith, v.writers_fit, v.no_writers, few);
  }

module _ {A : Type 0} (capacity : ℕ) (default : A) where
  module _ {n rs ws : ℕ} (small : capacity < 2 ^ 64) (few : suc n < 2 ^ 64) where
    wait-IsPut :
        (c : Channel A) (me : ℕ)
        → IsOpen capacity 0 0 n rs ws c
        → capacity ≤ c.count + c.write_reserved
        → IsPut capacity default
            (suc n)
            rs
            ws
            c
            none
            []
            (record c { writers = c.writers ++ (me ∷ []) })
    unfolding add_woken contents
    wait-IsPut c me v none_free = record {
      sound = inl (writer_waits-IsOpen c me v none_free);
      more = sym (append-nil (contents capacity default c));
    }

    wait-IsGot :
        (c : Channel A) (me : ℕ)
        → IsOpen capacity 0 0 n rs ws c
        → c.count ≤ c.read_reserved
        → IsGot capacity default
            (suc n)
            rs
            ws
            c
            none
            []
            (record c { readers = c.readers ++ (me ∷ []) })
    unfolding add_woken contents
    wait-IsGot c me v none_free = record {
      sound = inl (reader_waits-IsOpen c me v none_free);
      less = refl;
    }

    pub write_suspend-IsPut :
        (c : Channel A) (a : A) (me : ℕ)
        → IsSound capacity default n rs ws c
        → IsPut capacity default
            (suc n)
            rs
            ws
            c
            (write_suspend capacity c (blocked a) me).to_wake
            (accepted
              ((write_suspend capacity c (blocked a) me).flag
                && not (write_suspend capacity c (blocked a) me).self.closed)
              a)
            (write_suspend capacity c (blocked a) me).channel
    unfolding write_suspend blocked accepted
    write_suspend-IsPut c a me (inr v) =
        ground (
          arith,
          v.shut,
          nothing-IsPut capacity default small few c (IsSound-suc default c (inr v)),
        )
    write_suspend-IsPut c a me (inl v) = ground (
      arith,
      v.open_still,
      room_exact capacity default small few c (more_coroutines-IsOpen c v),
      wait-IsPut c me v,
      fresh-IsPut capacity default small few c a (more_coroutines-IsOpen c v),
    )

    pub read_suspend-IsGot :
        (c : Channel A) (me : ℕ)
        → IsSound capacity default n rs ws c
        → IsGot capacity default
            (suc n)
            rs
            ws
            c
            (read_suspend capacity default c read me).to_wake
            (taken (read_suspend capacity default c read me).self.value)
            (read_suspend capacity default c read me).channel
    unfolding read_suspend read taken
    read_suspend-IsGot c me (inr v) = ground (
      arith,
      v.shut,
      nothing-IsGot capacity default small few c (IsSound-suc default c (inr v)),
      read_and_wake-IsGot capacity default small few c (more_coroutines-IsShut c v),
    )
    read_suspend-IsGot c me (inl v) = ground (
      arith,
      v.open_still,
      wait-IsGot c me v,
      fresh-IsGot capacity default small few c (more_coroutines-IsOpen c v),
    )

  pub close-IsSound :
      {n rs ws : ℕ} (c : Channel A)
      → n < 2 ^ 64
      → IsSound capacity default n rs ws c
      → IsSound capacity default n (rs + length c.readers) (ws + length c.writers) (close c).2
  close-IsSound c few (inl v) = inr (close-IsShut c few v)
  close-IsSound c few (inr v) = inr (close_again-IsShut c few v)

  pub contents-close :
      (c : Channel A) → contents capacity default (close c).2 ≡ contents capacity default c
  unfolding close contents
  contents-close c = refl
