-- ===== src/Channel/Await.antt =====
-- The awaitables of the channel: what `write` and `read` do before a coroutine waits, as it starts to
-- wait, and when it runs again.
use ultra_net.Prelude.{
  ℕ, ◌+◌, ◌%◌, ◌^◌, Bool, true, false, [], ◌∷◌, ◌++◌, Option, none, some, ltb, if◌then◌else◌,
}
use ultra_net.Channel.{
  Channel, dec, do_write, do_read, wake_one_reader, wake_one_writer, write_and_wake, read_and_wake,
}

pub record WriteAwaitable {ℓ} (A : Type ℓ) : Type ℓ where
  pub value : A
  pub would_block : Bool
  pub closed : Bool

pub record ReadAwaitable {ℓ} (A : Type ℓ) : Type ℓ where
  pub value : Option A
  pub closed : Bool

-- What a method leaves: the channel, the awaitable, its Boolean result, and the handle to schedule.
pub record Outcome {ℓ} (A W : Type ℓ) : Type ℓ where
  pub channel : Channel A
  pub self : W
  pub flag : Bool
  pub to_wake : Option ℕ

module _ {ℓ} {A : Type ℓ} where
  unfoldable pub write : A → WriteAwaitable A
  write a = record { value = a; would_block = false; closed = false }

  unfoldable pub read : ReadAwaitable A
  read = record { value = none; closed = false }

module _ {ℓ} {A : Type ℓ} (capacity : ℕ) where
  -- The result is `ready`.
  unfoldable pub write_ready : Channel A → WriteAwaitable A → Outcome A (WriteAwaitable A)
  write_ready c w =
      let (h, c') = write_and_wake capacity c w.value in
      if c.closed
      then record { channel = c; self = record w { closed = true }; flag = true; to_wake = none }
      else if ltb ((c.count + c.write_reserved) % 2 ^ 64) capacity
      then record { channel = c'; self = w; flag = true; to_wake = h }
      else record {
        channel = c;
        self = record w { would_block = true };
        flag = false;
        to_wake = none;
      }

  -- The result is `resume_self`; `me` is the handle of the coroutine that waits.
  unfoldable pub write_suspend : Channel A → WriteAwaitable A → ℕ → Outcome A (WriteAwaitable A)
  write_suspend c w me =
      let (h, c') = write_and_wake capacity c w.value in
      if c.closed
      then record {
        channel = c;
        self = record w { closed = true; would_block = false };
        flag = true;
        to_wake = none;
      }
      else if ltb ((c.count + c.write_reserved) % 2 ^ 64) capacity
      then record {
        channel = c';
        self = record w { would_block = false };
        flag = true;
        to_wake = h;
      }
      else record {
        channel = record c { writers = c.writers ++ (me ∷ []) };
        self = w;
        flag = false;
        to_wake = none;
      }

  -- The result is what `co_await` returns.
  unfoldable pub write_resume : Channel A → WriteAwaitable A → Outcome A (WriteAwaitable A)
  write_resume c w =
      let (h, c') =
        wake_one_reader
          (record (do_write capacity c w.value) { write_reserved = dec c.write_reserved }) in
      if w.closed
      then record { channel = c; self = w; flag = false; to_wake = none }
      else if w.would_block
      then (if c.closed
          then record {
            channel = record c { write_reserved = dec c.write_reserved };
            self = w;
            flag = false;
            to_wake = none;
          }
          else record { channel = c'; self = w; flag = true; to_wake = h })
      else record { channel = c; self = w; flag = true; to_wake = none }

module _ {ℓ} {A : Type ℓ} (capacity : ℕ) (default : A) where
  unfoldable pub read_ready : Channel A → ReadAwaitable A → Outcome A (ReadAwaitable A)
  read_ready c r =
      let (a, h, c') = read_and_wake capacity default c in
      if ltb c.read_reserved c.count
      then record { channel = c'; self = record r { value = some a }; flag = true; to_wake = h }
      else if c.closed
      then record { channel = c; self = record r { closed = true }; flag = true; to_wake = none }
      else record { channel = c; self = r; flag = false; to_wake = none }

  unfoldable pub read_suspend : Channel A → ReadAwaitable A → ℕ → Outcome A (ReadAwaitable A)
  read_suspend c r me =
      let (a, h, c') = read_and_wake capacity default c in
      if ltb c.read_reserved c.count
      then record { channel = c'; self = record r { value = some a }; flag = true; to_wake = h }
      else if c.closed
      then record { channel = c; self = record r { closed = true }; flag = true; to_wake = none }
      else record {
        channel = record c { readers = c.readers ++ (me ∷ []) };
        self = r;
        flag = false;
        to_wake = none;
      }

  -- The branch of `read_resume` that takes the lock; what `co_await` returns is the value it leaves,
  -- or nothing if `closed` is set.
  unfoldable pub take_reserved : Channel A → ReadAwaitable A → Outcome A (ReadAwaitable A)
  take_reserved c r =
      let (a, c') = do_read capacity default c in
      let (h, c'') = wake_one_writer (record c' { read_reserved = dec c.read_reserved }) in
      if ltb 0 c.count
      then record { channel = c''; self = record r { value = some a }; flag = true; to_wake = h }
      else if c.closed
      then record {
        channel = record c { read_reserved = dec c.read_reserved };
        self = record r { closed = true };
        flag = false;
        to_wake = none;
      }
      else record { channel = c; self = r; flag = false; to_wake = none }

  unfoldable pub read_resume : Channel A → ReadAwaitable A → Outcome A (ReadAwaitable A)
  read_resume c r =
      let taken = take_reserved c r in
      if r.closed
      then record { channel = c; self = r; flag = false; to_wake = none }
      else elim r.value [
        | none ↦ taken
        | some a ↦ record { channel = c; self = r; flag = true; to_wake = none }
      ]
