-- ===== src/Tl/Decoder/Content.antt =====
-- What `PopMessage` reads after the length: the content, and the zeros that fill the word up.
use gogram.Common.{
  ℕ, zero, suc, ◌+◌, ◌-◌, ◌%◌, ◌<◌, ◌≡◌, refl, sym, ap, ◌∙◌, true, false, [], ◌∷◌, ◌++◌,
  append_assoc, length, ltb, ◌==◌, not, replicate, arith, if◌then◌else◌,
}
use gogram.Common.Bytes.{Bytes}
use gogram.Tl.Defs.{void_bytes, reading_void, reading_data, exceeds_input}
use gogram.Tl.Decoder.{
  D, ◌>>=◌, or_wrap, give, fail, Decoder, rest, read, all_zero, pop_void, pop_content,
}
use gogram.Tl.Decoder.Clean.{Took, Clean, read-Took, or_wrap-Clean, if-Clean, if_at-Clean}

all_zero_lem : (b : Bytes) → all_zero b ≡ true → b ≡ replicate (length b) 0
unfolding all_zero
all_zero_lem [] h = refl
all_zero_lem (zero ∷ b) h = ap (◌∷◌ 0) (all_zero_lem b h)
all_zero_lem (suc x ∷ b) h = absurd (ground (arith, h))

-- What fills the word up is zeros.
record Filled (d : Decoder) (r : Decoder × Bytes) (n : ℕ) (b : Bytes) : Type 0 where
  pad : ℕ
  small : pad < 4
  aligned : (n + pad) % 4 ≡ 0
  same : r.1 ≡ b
  took : Took d r (replicate pad 0)

module _ (n : ℕ) (b : Bytes) where
  abbrev check_void : Bytes → D Bytes
  check_void void = if all_zero void then give b else fail (void_bytes void) []

  abbrev read_void : D Bytes
  read_void = read (4 - n % 4) >>= λ void. or_wrap reading_void [] (check_void void)

  read_void-Filled :
      (d : Decoder) → (n % 4 == 0) ≡ false → Clean (read_void d) → Filled d (read_void d) n b
  read_void-Filled d odd =
      let (d', void) = read (4 - n % 4) d in
      or_wrap-Clean (λ r. Filled d r n b) d' reading_void [] (check_void void)
        λ clean.
          if-Clean (λ r. Filled d r n b) d' (all_zero void) (give b) (fail (void_bytes void) [])
            (λ zeros h.
              let got = read-Took (4 - n % 4) d clean in
              record {
                pad = 4 - n % 4;
                small = ground arith;
                aligned = omega arith;
                same = refl;
                took = record {
                  taken =
                      got.2.taken
                      ∙ ap (λ z. z ++ rest d')
                          (all_zero_lem void zeros ∙ ap (λ k. replicate k 0) got.1);
                  same_input = got.2.same_input;
                };
              })
            (λ other h. absurd (ground (arith, h)))

  pop_void-Filled : (d : Decoder) → Clean (pop_void n b d) → Filled d (pop_void n b d) n b
  unfolding pop_void
  pop_void-Filled d =
      if-Clean (λ r. Filled d r n b) d (not (n % 4 == 0)) read_void (give b)
        (λ odd. read_void-Filled d (ground (arith, odd)))
        (λ even h. record {
          pad = 0;
          small = omega arith;
          aligned = ground (arith, even);
          same = refl;
          took = record { taken = refl; same_input = refl };
        })

-- From `d` the content of `n` bytes and its padding, after `k` bytes of length.
pub record Content (d : Decoder) (r : Decoder × Bytes) (k n : ℕ) : Type 0 where
  pub pad : ℕ
  pub size : length r.1 ≡ n
  pub small : pad < 4
  pub aligned : (k + n + pad) % 4 ≡ 0
  pub took : Took d r (r.1 ++ replicate pad 0)

module _ (k n : ℕ) where
  abbrev read_content : D Bytes
  read_content = read n >>= λ buf. or_wrap reading_data [] (pop_void (k + n) buf)

  read_content-Content : (d : Decoder) → Clean (read_content d) → Content d (read_content d) k n
  read_content-Content d =
      let (d', buf) = read n d in
      or_wrap-Clean (λ r. Content d r k n) d' reading_data [] (pop_void (k + n) buf)
        λ clean h.
          let got = read-Took n d clean in
          let filled = pop_void-Filled (k + n) buf d' h in
          let zeros = replicate filled.pad 0 in
          record {
            pad = filled.pad;
            size = ap length filled.same ∙ got.1;
            small = filled.small;
            aligned = filled.aligned;
            took = record {
              taken =
                  got.2.taken
                  ∙ ap (◌++◌ buf) filled.took.taken
                  ∙ sym (append_assoc buf zeros (rest (pop_void (k + n) buf d').0))
                  ∙ ap (λ z. (z ++ zeros) ++ rest (pop_void (k + n) buf d').0) (sym filled.same);
              same_input = filled.took.same_input ∙ got.2.same_input;
            };
          }

  pub pop_content-Content :
      (d : Decoder) → Clean (pop_content k n d) → Content d (pop_content k n d) k n
  unfolding pop_content
  pop_content-Content d =
      if_at-Clean (λ r. Content d r k n) d (ltb (length (rest d)) n)
        (fail (exceeds_input n (length (rest d))) [] d) (read_content d)
        (λ long h. absurd (ground (arith, h))) (λ short. read_content-Content d)
