-- ===== src/Packet/Decoding.antt =====
-- How a parser reads fields that were written, one rule for each way to build parsers.
use hyperbot.Prelude.{ℕ, ◌≡◌, refl, ap, subst, List, [], ◌∷◌, length, map, Result, ok}
use hyperbot.Packet.{
  Field, number, ascii, Fits, Streams, written, IsFifo, ParseError, Parser, ◌>>=◌, pure, read_into,
  read, read_characters, repeat,
}

-- The fields of all elements of a list, before others.
abbrev pub each : {A : Type 0} → (A → List Field → List Field) → List A → List Field → List Field
each encode [] rest = rest
each encode (x ∷ xs) rest = encode x (each encode xs rest)

module _ (S : Streams) where
  -- If the fields fit, the parser reads the value off them, and leaves the rest.
  pub record Decodes {A : Type 0} (p : Parser S.Stream A) (fields : List Field) (a : A)
      (rest : List Field) : Type 0 where
    pub reads : Fits fields → p (written S fields) ≡ ok (a, written S rest)
    pub leaves : Fits fields → Fits rest

  >>=-reads :
      {A B : Type 0} (m : Parser S.Stream A) (f : A → Parser S.Stream B) (fields mid : List Field)
      (a : A) (end : Result ParseError (B × S.Stream))
      → m (written S fields) ≡ ok (a, written S mid)
      → f a (written S mid) ≡ end
      → (m >>= f) (written S fields) ≡ end
  unfolding ◌>>=◌
  >>=-reads m f fields mid a end first second = rw (first, ◌>>=◌) second

  pub Decodes->>= :
      {A B : Type 0} {m : Parser S.Stream A} (f : A → Parser S.Stream B)
      {fields mid rest : List Field} {a : A} {b : B}
      → Decodes m fields a mid
      → Decodes (f a) mid b rest
      → Decodes (m >>= f) fields b rest
  Decodes->>= {m} f {fields} {mid} {rest} {a} {b} h k = record {
    reads = λ fits.
        >>=-reads m f fields mid a (ok (b, written S rest)) (h.reads fits)
          (k.reads (h.leaves fits));
    leaves = λ fits. k.leaves (h.leaves fits);
  }

  pub Decodes-pure : {A : Type 0} {a : A} {rest : List Field} → Decodes (pure a) rest a rest
  unfolding pure
  Decodes-pure = record { reads = λ fits. refl; leaves = λ fits. fits }

  module _ (fifo : IsFifo S) where
    pub read_into-Decodes :
        {w x : ℕ} (old : ℕ) {rest : List Field}
        → Decodes (read_into S w old) (number w x ∷ rest) x rest
    unfolding read_into
    read_into-Decodes {w} {x} old {rest} = record {
      reads = λ fits. ap (λ r. ok r) (fifo.read_number w x old rest fits.0);
      leaves = λ fits. fits.1;
    }

    pub read-Decodes : {w x : ℕ} {rest : List Field} → Decodes (read S w) (number w x ∷ rest) x rest
    unfolding read
    read-Decodes = read_into-Decodes 0

    -- One number is read, the rest goes on.
    pub read->>= :
        {B : Type 0} {w x : ℕ} (k : ℕ → Parser S.Stream B) {rest after : List Field} {b : B}
        → Decodes (k x) rest b after
        → Decodes (read S w >>= k) (number w x ∷ rest) b after
    read->>= k h = Decodes->>= k read-Decodes h

    pub read_characters-Decodes :
        {s : List ℕ} {rest : List Field}
        → Decodes (read_characters S (length s)) (ascii s ∷ rest) s rest
    unfolding read_characters
    read_characters-Decodes {s} {rest} = record {
      reads = λ fits. ap (λ r. ok r) (fifo.read_text s rest);
      leaves = λ fits. fits;
    }

  -- A list is read by its length, each element by its fields.
  pub repeat-map :
      {A B : Type 0} {p : Parser S.Stream B} {encode : A → List Field → List Field}
      {rest : List Field} (value : A → B)
      → ((x : A) (after : List Field) → Decodes p (encode x after) (value x) after)
      → (xs : List A) → Decodes (repeat (length xs) p) (each encode xs rest) (map value xs) rest
  unfolding repeat
  repeat-map value one [] = Decodes-pure
  repeat-map value one (x ∷ xs) =
      Decodes->>= _ (one x _) (Decodes->>= _ (repeat-map value one xs) Decodes-pure)

  pub repeat-Decodes :
      {A : Type 0} {p : Parser S.Stream A} {encode : A → List Field → List Field}
      {rest : List Field}
      → ((x : A) (after : List Field) → Decodes p (encode x after) x after)
      → (xs : List A) → Decodes (repeat (length xs) p) (each encode xs rest) xs rest
  unfolding repeat
  repeat-Decodes one [] = Decodes-pure
  repeat-Decodes one (x ∷ xs) =
      Decodes->>= _ (one x _) (Decodes->>= _ (repeat-Decodes one xs) Decodes-pure)

  pub Decodes-value :
      {A : Type 0} {p : Parser S.Stream A} {fields rest : List Field} {a b : A}
      → a ≡ b
      → Decodes p fields a rest
      → Decodes p fields b rest
  Decodes-value {p} {fields} {rest} e h = subst (λ x. Decodes p fields x rest) e h
