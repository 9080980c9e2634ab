-- ===== src/Tl/Decoder/Reads.antt =====
-- What each `Pop` takes from input that starts with the bytes it looks for.
use gogram.Common.{
  ℕ, ◌+◌, ◌^◌, ◌<◌, ◌≡◌, refl, sym, ap, ◌∙◌, Option, Bool, true, false, none, some, [], ◌++◌,
  length, length-append, length-drop, take, drop, take_prefix, drop_prefix, drop-drop, ◌==◌, ge→ltb,
  arith, if◌then◌else◌,
}
use mathlib.Core.Path.{subst}
use gogram.Common.Bytes.{Bytes, le_bytes, from_le, length-le_bytes, from_le-le_bytes}
use gogram.Common.Int.{pos}
use gogram.Tl.Defs.{TlError, not_bool, crc_true, crc_false}
use gogram.Tl.Decoder.{
  D, ◌>>=◌, or_return, or_wrap, give, fail, Decoder, rest, read_some, read, pop_uint, pop_long,
  pop_sized, pop_raw_bytes, pop_bool,
}

-- From `d`, without an error so far, the call returned `a`, met no error and left `more`.
pub record Pops {A : Type 0} (d : Decoder) (r : Decoder × A) (a : A) (more : Bytes) : Type 0 where
  pub value : r.1 ≡ a
  pub no_error : r.0.err ≡ none
  pub left : rest r.0 ≡ more
  pub same_depth : r.0.depth ≡ d.depth

-- At least one byte is left.
in_range : (d : Decoder) → 0 < length (rest d) → d.at < length d.input
in_range d h = omega (arith, length-drop d.at d.input)

pub read-Pops :
    (d : Decoder) (n : ℕ) (xs ys : Bytes)
    → d.err ≡ none
    → rest d ≡ xs ++ ys
    → n ≡ length xs
    → 0 < length (xs ++ ys)
    → Pops d (read n d) xs ys
unfolding read read_some
read-Pops d n xs ys e here size some_left = record {
  value = ground (arith, inside, got, size);
  no_error = ground (arith, inside, got, size);
  left = ground (arith, inside, got, size, after);
  same_depth = ground (arith, inside, got, size);
}
  where
    inside : d.at < length d.input
    inside = in_range d (rw here some_left)

    got : take n (rest d) ≡ xs
    got = ap (take n) here ∙ take_prefix n xs ys size

    after : drop (d.at + n) d.input ≡ ys
    after =
        sym (drop-drop n d.at (d.at + n) d.input refl) ∙ ap (drop n) here ∙ drop_prefix n xs ys size

-- A call that ends with a value, without an error so far.
pub give-Pops :
    {A : Type 0} (d : Decoder) (x a : A) {more : Bytes}
    → d.err ≡ none
    → rest d ≡ more
    → x ≡ a
    → Pops d (give x d) a more
give-Pops d x a e h same = record { value = same; no_error = e; left = h; same_depth = refl }

pub or_return_ok :
    {A : Type 0} (z : A) (k : D A) (d : Decoder) → d.err ≡ none → or_return z k d ≡ k d
or_return_ok {A} z k d e =
    ap {B = Decoder × A} (λ (o : Option TlError). elim o [ none ↦ k d | some _ ↦ (d, z) ]) e

pub or_wrap_ok :
    {A : Type 0} (w : TlError → TlError) (z : A) (k : D A) (d : Decoder)
    → d.err ≡ none
    → or_wrap w z k d ≡ k d
or_wrap_ok {A} w z k d e =
    ap {B = Decoder × A}
      (λ (o : Option TlError). elim o [ none ↦ k d | some x ↦ (record d { err = some (w x) }, z) ])
      e

-- What a second call does from the state that a first call left, where it takes no more levels.
abbrev pub Onward : {B : Type 0} → Decoder → D B → Bytes → B → Bytes → Type 0
Onward d m mid b more =
    (d' : Decoder) → d'.err ≡ none → d'.depth ≡ d.depth → rest d' ≡ mid → Pops d' (m d') b more

-- A call after a call, and the test for an error that did not happen.
module _ {A B : Type 0} (d : Decoder) (m : D A) {a : A} {b : B} {mid more : Bytes} where
  pub Pops-Onward :
      (f : A → D B) → Pops d (m d) a mid → Onward d (f a) mid b more → Pops d ((m >>= f) d) b more
  Pops-Onward f p k =
      let q = k (m d).0 p.no_error p.same_depth p.left in
      rw p.value (record {
        value = q.value;
        no_error = q.no_error;
        left = q.left;
        same_depth = q.same_depth ∙ p.same_depth;
      })

  pub Pops-Onward_then :
      (z : B) (f : A → D B)
      → Pops d (m d) a mid
      → Onward d (f a) mid b more
      → Pops d ((m >>= λ x. or_return z (f x)) d) b more
  Pops-Onward_then z f p k =
      Pops-Onward (λ x. or_return z (f x)) p
        λ d' e l h. subst (λ r. Pops d' r b more) (sym (or_return_ok z (f a) d' e)) (k d' e l h)

  pub Pops-Onward_wrapped :
      (w : TlError → TlError) (z : B) (f : A → D B)
      → Pops d (m d) a mid
      → Onward d (f a) mid b more
      → Pops d ((m >>= λ x. or_wrap w z (f x)) d) b more
  Pops-Onward_wrapped w z f p k =
      Pops-Onward (λ x. or_wrap w z (f x)) p
        λ d' e l h. subst (λ r. Pops d' r b more) (sym (or_wrap_ok w z (f a) d' e)) (k d' e l h)

-- The same where the second call does not look at the depth.
module _ {A B : Type 0} (d : Decoder) (m : D A) {a : A} {b : B} {mid more : Bytes} where
  pub Pops-bind :
      (f : A → D B)
      → Pops d (m d) a mid
      → ((d' : Decoder) → d'.err ≡ none → rest d' ≡ mid → Pops d' (f a d') b more)
      → Pops d ((m >>= f) d) b more
  Pops-bind f p k = Pops-Onward d m f p λ d' e l h. k d' e h

  pub Pops-then :
      (z : B) (f : A → D B)
      → Pops d (m d) a mid
      → ((d' : Decoder) → d'.err ≡ none → rest d' ≡ mid → Pops d' (f a d') b more)
      → Pops d ((m >>= λ x. or_return z (f x)) d) b more
  Pops-then z f p k = Pops-Onward_then d m z f p λ d' e l h. k d' e h

  pub Pops-wrapped :
      (w : TlError → TlError) (z : B) (f : A → D B)
      → Pops d (m d) a mid
      → ((d' : Decoder) → d'.err ≡ none → rest d' ≡ mid → Pops d' (f a d') b more)
      → Pops d ((m >>= λ x. or_wrap w z (f x)) d) b more
  Pops-wrapped w z f p k = Pops-Onward_wrapped d m w z f p λ d' e l h. k d' e h

-- A number of `k` bytes.
read_word-Pops :
    (d : Decoder) (k v : ℕ) (ys : Bytes)
    → d.err ≡ none
    → 0 < k
    → rest d ≡ le_bytes k v ++ ys
    → Pops d (read k d) (le_bytes k v) ys
read_word-Pops d k v ys e h here =
    let size = length-le_bytes k v in
    read-Pops d k (le_bytes k v) ys e here (sym size)
      (omega (arith, length-append (le_bytes k v) ys, size))

pub pop_uint-Pops :
    (d : Decoder) (v : ℕ) (ys : Bytes)
    → d.err ≡ none
    → v < 2 ^ 32
    → rest d ≡ le_bytes 4 v ++ ys
    → Pops d (pop_uint d) v ys
unfolding pop_uint
pop_uint-Pops d v ys e h here =
    Pops-then d (read 4) 0 (λ val. give (from_le val))
      (read_word-Pops d 4 v ys e (omega arith) here)
      λ d' e' left. give-Pops d' _ v e' left (from_le-le_bytes 4 v h)

pub pop_long-Pops :
    (d : Decoder) (v : ℕ) (ys : Bytes)
    → d.err ≡ none
    → v < 2 ^ 64
    → rest d ≡ le_bytes 8 v ++ ys
    → Pops d (pop_long d) v ys
unfolding pop_long
pop_long-Pops d v ys e h here =
    Pops-then d (read 8) 0 (λ val. give (from_le val))
      (read_word-Pops d 8 v ys e (omega arith) here)
      λ d' e' left. give-Pops d' _ v e' left (from_le-le_bytes 8 v h)

crc-lt : (v : Bool) → (if v then crc_true else crc_false) < 2 ^ 32
crc-lt true = omega arith
crc-lt false = omega arith

pub pop_bool-Pops :
    (d : Decoder) (v : Bool) (ys : Bytes)
    → d.err ≡ none
    → rest d ≡ le_bytes 4 (if v then crc_true else crc_false) ++ ys
    → Pops d (pop_bool d) v ys
unfolding pop_bool
pop_bool-Pops d v ys e here =
    Pops-then d pop_uint false bool_of
      (pop_uint-Pops d (if v then crc_true else crc_false) ys e (crc-lt v) here)
      λ d' e' left. bool_of-Pops v d' e' left
  where
    bool_of : ℕ → D Bool
    bool_of crc =
        if crc == crc_true
        then give true
        else if crc == crc_false
        then give false
        else fail (not_bool crc) false

    bool_of-Pops :
        (v : Bool) (d' : Decoder)
        → d'.err ≡ none
        → rest d' ≡ ys
        → Pops d' (bool_of (if v then crc_true else crc_false) d') v ys
    bool_of-Pops true d' e' left = give-Pops d' true true e' left refl
    bool_of-Pops false d' e' left = give-Pops d' false false e' left refl

pub pop_raw_bytes-Pops :
    (d : Decoder) (xs ys : Bytes)
    → d.err ≡ none
    → rest d ≡ xs ++ ys
    → 0 < length (xs ++ ys)
    → Pops d (pop_raw_bytes (pos (length xs)) d) xs ys
unfolding pop_raw_bytes pop_sized
pop_raw_bytes-Pops d xs ys e here more =
    let enough =
      ge→ltb (length (rest d)) (length xs) (rw here (omega (arith, length-append xs ys))) in
    subst (λ r. Pops d r xs ys) (sym (or_return_ok [] (pop_sized (length xs)) d e))
      (rw enough (
        Pops-then d (read (length xs)) [] give (read-Pops d (length xs) xs ys e here refl more)
          λ d' e' left. give-Pops d' xs xs e' left refl))
