-- ===== src/Packet/Bytes.antt =====
-- A stream of bytes for the packets: numbers are little-endian. It stands for the library's stream
-- (bot/src/shared/stream_utility.h) where a concrete one is needed.
use hyperbot.Prelude.{
  ℕ, zero, suc, ◌+◌, ◌*◌, ◌/◌, ◌%◌, ◌^◌, ◌<◌, ◌≡◌, refl, sym, ap, ◌∙◌, Option, none, some, List, [],
  ◌∷◌, ◌++◌, length, arith,
}
use mathlib.Core.List.{append-nil, append_assoc}
use native.Mathlib.Nat.{pow-suc}
use hyperbot.Packet.{Field, number, ascii, Streams, written, write_all, IsFifo}

abbrev bytes_of : ℕ → ℕ → List ℕ
bytes_of zero x = []
bytes_of (suc w) x = x % 256 ∷ bytes_of w (x / 256)

abbrev encoded : Field → List ℕ
encoded (number w x) = bytes_of w x
encoded (ascii s) = s

abbrev take_number : ℕ → List ℕ → Option (ℕ × List ℕ)
take_number zero s = some (0, s)
take_number (suc w) [] = none
take_number (suc w) (b ∷ s) = elim (take_number w s) [
  | none ↦ none
  | some (x, rest) ↦ some (b + 256 * x, rest)
]

abbrev split : ℕ → List ℕ → List ℕ × List ℕ
split zero s = ([], s)
split (suc n) [] = ([], [])
split (suc n) (c ∷ s) = let (taken, rest) = split n s in (c ∷ taken, rest)

abbrev pub byte_streams : Streams
byte_streams = record {
  Stream = List ℕ;
  empty = [];
  write = λ f s. s ++ encoded f;
  read_or = λ w old s. elim (take_number w s) [ none ↦ (old, s) | some r ↦ r ];
  read_ascii = λ n s. split n s;
}

write_all-append :
    (fields : List Field) (s : List ℕ)
    → write_all byte_streams fields s ≡ s ++ written byte_streams fields
write_all-append [] s = sym (append-nil s)
write_all-append (f ∷ fields) s =
    write_all-append fields (s ++ encoded f)
    ∙ append_assoc s (encoded f) (written byte_streams fields)
    ∙ ap (λ t. s ++ t) (sym (write_all-append fields (encoded f)))

written-cons :
    (f : Field) (fields : List Field)
    → written byte_streams (f ∷ fields) ≡ encoded f ++ written byte_streams fields
written-cons f fields = write_all-append fields (encoded f)

-- Eight bits more.
pow-eight : (w : ℕ) → 2 ^ (8 * suc w) ≡ 256 * 2 ^ (8 * w)
pow-eight w =
    let sum : 8 * suc w ≡ suc (suc (suc (suc (suc (suc (suc (suc (8 * w)))))))) = omega arith in
    omega (
      arith,
      ap (λ n. 2 ^ n) sum,
      pow-suc 2 (8 * w),
      pow-suc 2 (suc (8 * w)),
      pow-suc 2 (suc (suc (8 * w))),
      pow-suc 2 (suc (suc (suc (8 * w)))),
      pow-suc 2 (suc (suc (suc (suc (8 * w))))),
      pow-suc 2 (suc (suc (suc (suc (suc (8 * w)))))),
      pow-suc 2 (suc (suc (suc (suc (suc (suc (8 * w))))))),
      pow-suc 2 (suc (suc (suc (suc (suc (suc (suc (8 * w)))))))),
    )

small-head : (w x : ℕ) → x < 2 ^ (8 * suc w) → x / 256 < 2 ^ (8 * w)
small-head w x small = omega (arith, pow-eight w, small)

take_number-bytes_of :
    (w x : ℕ) (rest : List ℕ)
    → x < 2 ^ (8 * w)
    → take_number w (bytes_of w x ++ rest) ≡ some (x, rest)
take_number-bytes_of zero x rest small = ap (λ y. some (y, rest)) (omega arith)
take_number-bytes_of (suc w) x rest small =
    rw (take_number-bytes_of w (x / 256) rest (small-head w x small))
      (ap (λ y. some (y, rest)) (omega arith))

split-append : (s rest : List ℕ) → split (length s) (s ++ rest) ≡ (s, rest)
split-append [] rest = refl
split-append (c ∷ s) rest = rw (split-append s rest) refl

number_or-some :
    (old : ℕ) (s : List ℕ) (found : Option (ℕ × List ℕ)) (r : ℕ × List ℕ)
    → found ≡ some r
    → elim found [ none ↦ (old, s) | some r' ↦ r' ] ≡ r
number_or-some old s found r h = rw (h) refl

pub byte_streams-IsFifo : IsFifo byte_streams
byte_streams-IsFifo = record {
  read_number = λ w x old fields small.
      number_or-some old (written byte_streams (number w x ∷ fields))
        (take_number w (written byte_streams (number w x ∷ fields)))
        (x, written byte_streams fields)
        (ap (λ s. take_number w s) (written-cons (number w x) fields)
          ∙ take_number-bytes_of w x (written byte_streams fields) small);
  read_text = λ s fields.
      ap (λ t. split (length s) t) (written-cons (ascii s) fields)
      ∙ split-append s (written byte_streams fields);
}
