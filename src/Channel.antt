-- ===== src/Channel.antt =====
-- include/ultranet/coroutine/channel.hpp: the bounded channel between coroutines. A coroutine handle is
-- a number. Each method is the part of the code that runs under the lock; the handle that it is to
-- `schedule` behind the lock is a result, none where it schedules nobody. A value that was moved out of
-- the buffer stays in the list, where no method reads it again before it is overwritten.
pub mod Await
pub mod Ring
pub mod Reserve
pub mod Grants
pub mod Steps
pub mod Outcomes
pub mod Shut
pub mod Sound
pub mod Waits
pub mod Order
pub mod Progress
pub mod Closed
mod Tests
use ultra_net.Prelude.{
  ℕ, ◌+◌, ◌-◌, ◌%◌, ◌^◌, Bool, true, false, ◌||◌, List, [], ◌∷◌, ◌++◌, Option, none, some, ltb, leb,
  ◌==◌, if◌then◌else◌, inc64, length, get_or, set, replicate,
}

-- `--` on a size_t.
unfoldable pub dec : ℕ → ℕ
dec n = (n + (2 ^ 64 - 1)) % 2 ^ 64

pub record Channel {ℓ} (A : Type ℓ) : Type ℓ where
  pub buffer : List A
  pub write_pos : ℕ
  pub read_pos : ℕ
  pub count : ℕ
  pub write_reserved : ℕ
  pub read_reserved : ℕ
  pub closed : Bool
  pub readers : List ℕ
  pub writers : List ℕ

-- `capacity` is the parameter `Capacity` of the template.
module _ (capacity : ℕ) where
  -- `if (++pos >= Capacity) pos = 0`.
  unfoldable pub advance : ℕ → ℕ
  advance pos = if leb capacity (inc64 pos) then 0 else inc64 pos

module _ {ℓ} {A : Type ℓ} (capacity : ℕ) where
  unfoldable pub do_write : Channel A → A → Channel A
  do_write c a = record c {
    buffer = set c.buffer c.write_pos a;
    write_pos = advance capacity c.write_pos;
    count = inc64 c.count;
  }

-- `default` is the element `T{}`.
module _ {ℓ} {A : Type ℓ} (capacity : ℕ) (default : A) where
  unfoldable pub new : Channel A
  new = record {
    buffer = replicate capacity default;
    write_pos = 0;
    read_pos = 0;
    count = 0;
    write_reserved = 0;
    read_reserved = 0;
    closed = false;
    readers = [];
    writers = [];
  }

  unfoldable pub do_read : Channel A → A × Channel A
  do_read c = (
    get_or c.buffer c.read_pos default,
    record c { read_pos = advance capacity c.read_pos; count = dec c.count },
  )

module _ {ℓ} {A : Type ℓ} where
  -- A reservation for the first reader that waits, which is taken off the queue.
  unfoldable pub wake_one_reader : Channel A → Option ℕ × Channel A
  wake_one_reader c = elim c.readers [
    | [] ↦ (none, c)
    | h ∷ hs ↦ (some h, record c { read_reserved = inc64 c.read_reserved; readers = hs })
  ]

  unfoldable pub wake_one_writer : Channel A → Option ℕ × Channel A
  wake_one_writer c = elim c.writers [
    | [] ↦ (none, c)
    | h ∷ hs ↦ (some h, record c { write_reserved = inc64 c.write_reserved; writers = hs })
  ]

  -- `close`: the readers and the writers to schedule, in this order.
  unfoldable pub close : Channel A → List ℕ × List ℕ × Channel A
  close c = (
    c.readers,
    c.writers,
    record c {
      closed = true;
      readers = [];
      writers = [];
      read_reserved = (c.read_reserved + length c.readers) % 2 ^ 64;
      write_reserved = (c.write_reserved + length c.writers) % 2 ^ 64;
    },
  )

  unfoldable pub is_closed : Channel A → Bool
  is_closed c = c.closed

  unfoldable pub size : Channel A → ℕ
  size c = c.count

  unfoldable pub is_empty : Channel A → Bool
  is_empty c = c.count == 0

module _ {ℓ} {A : Type ℓ} (capacity : ℕ) where
  unfoldable pub full : Channel A → Bool
  full c = leb capacity ((c.count + c.write_reserved) % 2 ^ 64)

  -- A value more, and the reader that is woken for it.
  unfoldable pub write_and_wake : Channel A → A → Option ℕ × Channel A
  write_and_wake c a = wake_one_reader (do_write capacity c a)

  unfoldable pub try_write : Channel A → A → Bool × Option ℕ × Channel A
  try_write c a =
      let (h, c') = write_and_wake c a in
      if c.closed || leb capacity ((c.count + c.write_reserved) % 2 ^ 64)
      then (false, none, c)
      else (true, h, c')

module _ {ℓ} {A : Type ℓ} (capacity : ℕ) (default : A) where
  unfoldable pub read_and_wake : Channel A → A × Option ℕ × Channel A
  read_and_wake c =
      let (a, c') = do_read capacity default c in let (h, c'') = wake_one_writer c' in (a, h, c'')

  unfoldable pub try_read : Channel A → Option A × Option ℕ × Channel A
  try_read c =
      let (a, h, c') = read_and_wake c in
      if leb c.count c.read_reserved then (none, none, c) else (some a, h, c')
