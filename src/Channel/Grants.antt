-- ===== src/Channel/Grants.antt =====
-- Channel.antt: a write and a read of an open channel, before a coroutine is woken for them.
use ultra_net.Prelude.{ℕ, suc, ◌+◌, ◌^◌, ◌<◌, arith}
use ultra_net.Channel.{Channel, dec, do_write, do_read}
use ultra_net.Channel.Ring.{inc64-small, dec-pos, do_write-IsRing, do_read-IsRing}
use ultra_net.Channel.Reserve.{IsOpen}

module _ {ℓ} {A : Type ℓ} {capacity n readers_woken writers_woken : ℕ} where
  pub do_write-IsOpen :
      (c : Channel A) (a : A)
      → capacity < 2 ^ 64
      → IsOpen capacity 0 0 n readers_woken writers_woken c
      → c.count + c.write_reserved < capacity
      → IsOpen capacity 1 0 n readers_woken writers_woken (do_write capacity c a)
  unfolding do_write
  do_write-IsOpen c a small v place =
      let more = inc64-small c.count (omega (arith, place, small)) in
      record {
        open_still = v.open_still;
        ring = do_write-IsRing capacity c a small v.ring (omega (arith, place));
        backed = omega (arith, more, v.backed);
        room = omega (arith, more, place);
        readers_hold = v.readers_hold;
        writers_hold = v.writers_hold;
        readers_wait = ground (arith, more, v.readers_wait);
        writers_wait = ground (arith, place, v.writers_wait);
        readers_fit = v.readers_fit;
        writers_fit = v.writers_fit;
      }

  pub do_read-IsOpen :
      (default : A) (c : Channel A)
      → capacity < 2 ^ 64
      → IsOpen capacity 0 0 n readers_woken writers_woken c
      → c.read_reserved < c.count
      → IsOpen capacity 0 1 n readers_woken writers_woken (do_read capacity default c).1
  unfolding do_read
  do_read-IsOpen default c small v spare =
      let less = dec-pos c.count (omega (arith, spare)) (omega (arith, v.ring.fits, small)) in
      record {
        open_still = v.open_still;
        ring = do_read-IsRing capacity default c small v.ring (omega (arith, spare));
        backed = omega (arith, less, spare);
        room = omega (arith, less, v.room);
        readers_hold = v.readers_hold;
        writers_hold = v.writers_hold;
        readers_wait = ground (arith, spare, v.readers_wait);
        writers_wait = ground (arith, less, v.writers_wait);
        readers_fit = v.readers_fit;
        writers_fit = v.writers_fit;
      }

  -- A woken writer turns its reservation into an element.
  pub reserved_write-IsOpen :
      (c : Channel A) (a : A)
      → capacity < 2 ^ 64
      → IsOpen capacity 0 0 n readers_woken (suc writers_woken) c
      → IsOpen capacity 1 0 n readers_woken writers_woken
          (record (do_write capacity c a) { write_reserved = dec c.write_reserved })
  unfolding do_write
  reserved_write-IsOpen c a small v =
      let less =
        dec-pos c.write_reserved (omega (arith, v.writers_hold)) (omega (arith, v.room, small)) in
      let more = inc64-small c.count (omega (arith, less, v.room, small)) in
      record {
        open_still = v.open_still;
        ring = do_write-IsRing capacity c a small v.ring (omega (arith, less, v.room));
        backed = omega (arith, more, v.backed);
        room = omega (arith, less, more, v.room);
        readers_hold = v.readers_hold;
        writers_hold = omega (arith, less, v.writers_hold);
        readers_wait = ground (arith, more, v.readers_wait);
        writers_wait = ground (arith, less, more, v.writers_wait);
        readers_fit = v.readers_fit;
        writers_fit = omega (arith, less, v.writers_fit);
      }

  -- A woken reader takes the element that its reservation stands for.
  pub reserved_read-IsOpen :
      (default : A) (c : Channel A)
      → capacity < 2 ^ 64
      → IsOpen capacity 0 0 n (suc readers_woken) writers_woken c
      → IsOpen capacity 0 1 n readers_woken writers_woken
          (record (do_read capacity default c).1 { read_reserved = dec c.read_reserved })
  unfolding do_read
  reserved_read-IsOpen default c small v =
      let some_left : 0 < c.count = omega (arith, v.backed, v.readers_hold) in
      let less = dec-pos c.count some_left (omega (arith, v.ring.fits, small)) in
      let fewer =
        dec-pos c.read_reserved (omega (arith, v.readers_hold))
          (omega (arith, v.backed, v.ring.fits, small)) in
      record {
        open_still = v.open_still;
        ring = do_read-IsRing capacity default c small v.ring some_left;
        backed = omega (arith, less, fewer, v.backed);
        room = omega (arith, less, v.room);
        readers_hold = omega (arith, fewer, v.readers_hold);
        writers_hold = v.writers_hold;
        readers_wait = ground (arith, less, fewer, v.readers_wait);
        writers_wait = ground (arith, less, v.writers_wait);
        readers_fit = omega (arith, fewer, v.readers_fit);
        writers_fit = v.writers_fit;
      }
