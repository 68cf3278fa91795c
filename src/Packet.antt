-- ===== src/Packet.antt =====
-- bot/src/packet: the packets, whose parts are built (bot/src/packet/building) and parsed
-- (bot/src/packet/parsing) field by field. The stream of bytes (bot/src/shared/stream_utility.h) and
-- the container belong to a library: what the code relies on is the record Streams.
pub mod Decoding
pub mod Positions
pub mod Commands
pub mod Items
pub mod Movements
pub mod Bytes
mod Samples
mod Tests
use hyperbot.Prelude.{ℕ, zero, suc, ◌*◌, ◌^◌, ◌<◌, ◌≡◌, List, [], ◌∷◌, length, Result, ok, err}

-- What one call of `Write` puts into a stream: a number of so many bytes, or characters.
pub data Field : Type 0 where
  number : ℕ → ℕ → Field
  ascii : List ℕ → Field

-- Each number fits into its bytes.
abbrev pub Fits : List Field → Type 0
Fits [] = Unit
Fits (number w x ∷ fields) = (x < 2 ^ (8 * w)) × Fits fields
Fits (ascii s ∷ fields) = Fits fields

-- A read past the end sets the error flag and keeps the value that is given.
pub record Streams : Type 1 where
  pub Stream : Type 0
  pub empty : Stream
  pub write : Field → Stream → Stream
  pub read_or : ℕ → ℕ → Stream → ℕ × Stream
  pub read_ascii : ℕ → Stream → List ℕ × Stream

-- The calls of `Write` in order.
abbrev pub write_all : (S : Streams) → List Field → S.Stream → S.Stream
write_all S [] s = s
write_all S (f ∷ fields) s = write_all S fields (S.write f s)

abbrev pub written : (S : Streams) → List Field → S.Stream
written S fields = write_all S fields S.empty

-- Fields are read in the order in which they were written.
pub record IsFifo (S : Streams) : Type 0 where
  pub read_number :
      (w x old : ℕ) (fields : List Field)
      → x < 2 ^ (8 * w)
      → S.read_or w old (written S (number w x ∷ fields)) ≡ (x, written S fields)
  pub read_text :
      (s : List ℕ) (fields : List Field)
      → S.read_ascii (length s) (written S (ascii s ∷ fields)) ≡ (s, written S fields)

pub data ParseError : Type 0 where
  unknown_item no_item_object gold_slot_of_cos : ParseError

-- A parser moves on in the stream, or throws.
abbrev pub Parser : Type 0 → Type 0 → Type 0
Parser T A = T → Result ParseError (A × T)

infixl 5 ◌>>=◌
unfoldable pub ◌>>=◌ : {T A B : Type 0} → Parser T A → (A → Parser T B) → Parser T B
◌>>=◌ m f s = elim (m s) [ err e ↦ err e | ok (a, s') ↦ f a s' ]

unfoldable pub pure : {T A : Type 0} → A → Parser T A
pure a s = ok (a, s)

abbrev pub throw : {T A : Type 0} → ParseError → Parser T A
throw e s = err e

-- `for (int i=0; i<n; ++i) v.push_back(...)`
unfoldable pub repeat : {T A : Type 0} → ℕ → Parser T A → Parser T (List A)
repeat zero p = pure []
repeat (suc n) p = p >>= λ x. repeat n p >>= λ xs. pure (x ∷ xs)

module _ (S : Streams) where
  -- `stream.Read(out)`, and `stream.Read<T>()`, whose value is zero before.
  unfoldable pub read_into : ℕ → ℕ → Parser S.Stream ℕ
  read_into w old s = ok (S.read_or w old s)

  unfoldable pub read : ℕ → Parser S.Stream ℕ
  unfolding read_into
  read w = read_into w 0

  -- `stream.Read_Ascii(n)`
  unfoldable pub read_characters : ℕ → Parser S.Stream (List ℕ)
  read_characters n s = ok (S.read_ascii n s)

-- PacketContainer
pub record PacketContainer (S : Streams) : Type 0 where
  pub opcode : ℕ
  pub data_stream : S.Stream
  pub encrypted : ℕ
  pub massive : ℕ
