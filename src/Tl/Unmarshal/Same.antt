-- ===== src/Tl/Unmarshal/Same.antt =====
-- Two calls of the decoder that do the same from a depth on, and come back to the depth.
use gogram.Common.{
  ℕ, suc, ◌+◌, ◌-◌, ◌%◌, ◌≤◌, ◌<◌, ◌≡◌, refl, ap, ◌∙◌, Bool, true, false, not, Bool-cases, inl, inr,
  none, some, [], length, ltb, leb, ◌==◌, get_or, arith, if◌then◌else◌,
}
use gogram.Common.Bytes.{Bytes}
use gogram.Common.Int.{pos}
use gogram.Tl.Defs.{
  TlError, void_bytes, prefix_255, reading_void, reading_data, reading_size, not_bool, crc_true,
  crc_false,
}
use gogram.Common.Bytes.{from_le}
use gogram.Tl.Decoder.{
  D, ◌>>=◌, or_return, or_wrap, give, fail, Decoder, rest, read_some, read, pop_uint, pop_long,
  pop_sized, pop_raw_bytes, pop_bool, all_zero, pop_void, pop_content, size_of_three, pop_after,
  pop_message,
}
use gogram.Tl.Unmarshal.{nested}

pub record Alike {A : Type 0} (d : Decoder) (r s : Decoder × A) : Type 0 where
  pub same : r ≡ s
  pub back : r.0.depth ≡ d.depth

abbrev pub Same : {A : Type 0} → ℕ → D A → D A → Type 0
Same k m n = (d : Decoder) → k ≤ d.depth → Alike d (m d) (n d)

module _ {A : Type 0} (k : ℕ) where
  pub give-Same : (a : A) → Same k (give a) (give a)
  give-Same a d h = record { same = refl; back = refl }

  pub fail-Same : (e : TlError) (a : A) → Same k (fail e a) (fail e a)
  fail-Same e a d h = record { same = refl; back = refl }

  pub or_return-Same : (z : A) (m n : D A) → Same k m n → Same k (or_return z m) (or_return z n)
  or_return-Same z m n alike d h =
      elim d.err
        as (λ o.
          Alike d (elim o as (λ _. Decoder × A) [ none ↦ m d | some _ ↦ (d, z) ])
            (elim o as (λ _. Decoder × A) [ none ↦ n d | some _ ↦ (d, z) ])) [
              | none ↦ alike d h
              | some _ ↦ give-Same z d h
            ]

  pub or_wrap-Same :
      (w : TlError → TlError) (z : A) (m n : D A)
      → Same k m n
      → Same k (or_wrap w z m) (or_wrap w z n)
  or_wrap-Same w z m n alike d h =
      elim d.err
        as (λ o.
          Alike d
            (elim o as (λ _. Decoder × A) [
              | none ↦ m d
              | some e ↦ (record d { err = some (w e) }, z)
            ])
            (elim o as (λ _. Decoder × A) [
              | none ↦ n d
              | some e ↦ (record d { err = some (w e) }, z)
            ])) [ none ↦ alike d h | some e ↦ fail-Same (w e) z d h ]

  pub if-Same :
      (b : Bool) (m n m' n' : D A)
      → Same k m n
      → Same k m' n'
      → Same k (if b then m else m') (if b then n else n')
  if-Same true m n m' n' p q = p
  if-Same false m n m' n' p q = q

  -- A test that looks at the reader itself.
  pub if_at-Same :
      (b : Decoder → Bool) (m n m' n' : D A)
      → Same k m n
      → Same k m' n'
      → Same k (λ d. if b d then m d else m' d) (λ d. if b d then n d else n' d)
  if_at-Same b m n m' n' p q d h =
      elim (b d) as (λ t. Alike d (if t then m d else m' d) (if t then n d else n' d)) [
        | true ↦ p d h
        | false ↦ q d h
      ]

  -- The body has to do the same one level deeper, where there is such a level.
  pub nested-Same :
      (z : A) (m n : D A) → (k < 128 → Same (suc k) m n) → Same k (nested z m) (nested z n)
  unfolding nested
  nested-Same z m n alike = or_return-Same z _ _ λ d h. elim (Bool-cases (leb 128 d.depth)) [
    | inl deep ↦ rw deep (record { same = refl; back = refl })
    | inr shallow ↦
        let p = alike (ground arith) (record d { depth = d.depth + 1 }) (omega arith) in
        rw shallow (record {
          same =
              ap {B = Decoder × A}
                (λ (r : Decoder × A). (record r.0 { depth = r.0.depth - 1 }, r.1)) p.same;
          back = omega (arith, p.back);
        })
  ]

module _ {A B : Type 0} (k : ℕ) where
  pub bind-Same :
      (m n : D A) (f g : A → D B)
      → Same k m n
      → ((a : A) → Same k (f a) (g a))
      → Same k (m >>= f) (n >>= g)
  bind-Same m n f g p q d h =
      let one = p d h in
      let two = q (m d).1 (m d).0 (omega (arith, one.back)) in
      record {
        same = two.same ∙ ap {B = Decoder × B} (λ (r : Decoder × A). g r.1 r.0) one.same;
        back = two.back ∙ one.back;
      }

-- The reads of the primitive values.
module _ (k : ℕ) where
  read-Same : (n : ℕ) → Same k (read n) (read n)
  unfolding read read_some
  read-Same n d h = record { same = refl; back = ground arith }

  pub pop_uint-Same : Same k pop_uint pop_uint
  unfolding pop_uint
  pop_uint-Same =
      bind-Same k (read 4) (read 4) _ _ (read-Same 4)
        λ val. or_return-Same k 0 _ _ (give-Same k (from_le val))

  pub pop_long-Same : Same k pop_long pop_long
  unfolding pop_long
  pop_long-Same =
      bind-Same k (read 8) (read 8) _ _ (read-Same 8)
        λ val. or_return-Same k 0 _ _ (give-Same k (from_le val))

  pub pop_bool-Same : Same k pop_bool pop_bool
  unfolding pop_bool
  pop_bool-Same = bind-Same k pop_uint pop_uint _ _ pop_uint-Same λ crc.
      or_return-Same k false _ _ (
        if-Same k (crc == crc_true) _ _ _ _ (give-Same k true) (
          if-Same k (crc == crc_false) _ _ _ _ (give-Same k false)
            (fail-Same k (not_bool crc) false)))

  pub pop_raw_bytes-Same : (n : ℕ) → Same k (pop_raw_bytes (pos n)) (pop_raw_bytes (pos n))
  unfolding pop_raw_bytes pop_sized
  pop_raw_bytes-Same n = or_return-Same k [] _ _ (
      if_at-Same k (λ d. ltb (length (rest d)) n) _ _ _ _
        (λ d h. record { same = refl; back = refl })
        (bind-Same k (read n) (read n) _ _ (read-Same n)
          λ val. or_return-Same k [] _ _ (give-Same k val)))

  pop_void-Same : (n : ℕ) (b : Bytes) → Same k (pop_void n b) (pop_void n b)
  unfolding pop_void
  pop_void-Same n b =
      if-Same k (not (n % 4 == 0)) _ _ _ _
        (bind-Same k (read (4 - n % 4)) (read (4 - n % 4)) _ _ (read-Same (4 - n % 4)) λ void.
          or_wrap-Same k reading_void [] _ _
            (if-Same k (all_zero void) _ _ _ _ (give-Same k b) (fail-Same k (void_bytes void) [])))
        (give-Same k b)

  pop_content-Same : (n m : ℕ) → Same k (pop_content n m) (pop_content n m)
  unfolding pop_content
  pop_content-Same n m =
      if_at-Same k (λ d. ltb (length (rest d)) m) _ _ _ _
        (λ d h. record { same = refl; back = refl })
        (bind-Same k (read m) (read m) _ _ (read-Same m)
          λ buf. or_wrap-Same k reading_data [] _ _ (pop_void-Same (n + m) buf))

  pop_after-Same : (first : ℕ) → Same k (pop_after first) (pop_after first)
  unfolding pop_after
  pop_after-Same first = if-Same k (first == 255) _ _ _ _ (fail-Same k prefix_255 []) (
      if-Same k (not (first == 254)) _ _ _ _ (pop_content-Same 1 first) (
        bind-Same k (read 3) (read 3) _ _ (read-Same 3)
          λ size. or_wrap-Same k reading_size [] _ _ (pop_content-Same 4 (size_of_three size))))

  pub pop_message-Same : Same k pop_message pop_message
  unfolding pop_message
  pop_message-Same =
      bind-Same k (read 1) (read 1) _ _ (read-Same 1)
        λ first. or_return-Same k [] _ _ (pop_after-Same (get_or first 0 0))
