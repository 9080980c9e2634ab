-- ===== src/Aes/Ige.antt =====
-- internal/aes_ige/ige_cipher.go: the cipher mode IGE over a block cipher of 16 bytes. The buffers
-- of the input and the output are separate lists; an input that shares its array with the output
-- is not modelled.
pub mod Xor
pub mod RoundTrip
use gogram.Common.{
  ◌≡◌, ℕ, zero, suc, ◌+◌, ◌-◌, ◌*◌, ◌/◌, ◌%◌, Bool, not, Option, none, some, [], ◌∷◌, ◌++◌, length,
  take, drop, bit_xor, ltb, ◌==◌, if◌then◌else◌,
}
use gogram.Common.Bytes.{Bytes, IsBytes}
use gogram.Common.Results.{Result, ok, err}

abbrev pub block_size : ℕ
block_size = 16

-- `cipher.Block`, and `aes.NewCipher`, which fails on a key of the wrong size.
pub record Block : Type 0 where
  pub encrypt_block : Bytes → Bytes
  pub decrypt_block : Bytes → Bytes

pub record IsBlock (b : Block) : Type 0 where
  pub length-encrypt_block : (p : Bytes) → length p ≡ 16 → length (b.encrypt_block p) ≡ 16
  pub encrypt_block-IsBytes : (p : Bytes) → IsBytes p → IsBytes (b.encrypt_block p)
  pub decrypt_block-encrypt_block :
      (p : Bytes) → length p ≡ 16 → IsBytes p → b.decrypt_block (b.encrypt_block p) ≡ p

pub data IgeError : Type 0 where
  data_too_small data_not_divisible key_size msg_key_size output_too_short block_key random :
      IgeError
  iv_size : ℕ → IgeError

pub record Cipher : Type 0 where
  pub block : Block
  pub previous_ciphertext : Bytes
  pub previous_plaintext : Bytes

-- The end of `NewCipher`, with what `aes.NewCipher` returned.
unfoldable pub cipher_over : Bytes → Option Block → Result IgeError Cipher
cipher_over iv none = err block_key
cipher_over iv (some b) = ok record {
  block = b;
  previous_ciphertext = take block_size iv;
  previous_plaintext = drop block_size iv;
}

unfoldable pub new_cipher : (Bytes → Option Block) → Bytes → Bytes → Result IgeError Cipher
new_cipher new_aes key iv =
    if not (length iv == 2 * block_size)
    then err (iv_size (length iv))
    else cipher_over iv (new_aes key)

-- `for j := range block { block[j] = a[j] ^ b[j] }`
unfoldable pub xor_bytes : Bytes → Bytes → Bytes
xor_bytes (x ∷ xs) (y ∷ ys) = bit_xor x y ∷ xor_bytes xs ys
xor_bytes [] ys = []
xor_bytes (x ∷ xs) [] = []

unfoldable pub is_correct_data : Bytes → Option IgeError
is_correct_data input =
    if ltb (length input) block_size
    then some data_too_small
    else if not (length input % block_size == 0)
    then some data_not_divisible
    else none

-- One round of each loop: the block that it stores, and the chaining values after it.
unfoldable pub encrypt_round : Cipher → Bytes → Cipher × Bytes
encrypt_round c plain =
    let block =
      xor_bytes (c.block.encrypt_block (xor_bytes plain c.previous_ciphertext))
        c.previous_plaintext in
    (record c { previous_ciphertext = block; previous_plaintext = plain }, block)

unfoldable pub decrypt_round : Cipher → Bytes → Cipher × Bytes
decrypt_round c encrypted =
    let block =
      xor_bytes (c.block.decrypt_block (xor_bytes encrypted c.previous_plaintext))
        c.previous_ciphertext in
    (record c { previous_ciphertext = encrypted; previous_plaintext = block }, block)

-- How often `for i := 0; i < len(in); i += aes.BlockSize` runs its body.
abbrev pub rounds_of : ℕ → ℕ
rounds_of size = (size + (block_size - 1)) / block_size

-- The loop over the part of the input that is left.
unfoldable pub rounds : (Cipher → Bytes → Cipher × Bytes) → ℕ → Cipher → Bytes → Cipher × Bytes
rounds round fuel c [] = (c, [])
rounds round zero c (x ∷ xs) = (c, [])
rounds round (suc fuel) c (x ∷ xs) =
    let (c1, block) = round c (take block_size (x ∷ xs)) in
    let (c2, out) = rounds round fuel c1 (drop block_size (x ∷ xs)) in (c2, block ++ out)

-- The loop writes the front of the buffer `out`.
abbrev pub store : Bytes → Cipher × Bytes → Cipher × Result IgeError Bytes
store out (c, written) = (c, ok (written ++ drop (length written) out))

-- `if err := isCorrectData(in); err != nil { return err }`
unfoldable pub unless_refused :
    Option IgeError → Cipher → Cipher × Result IgeError Bytes → Cipher × Result IgeError Bytes
unless_refused (some e) c done = (c, err e)
unless_refused none c done = done

unfoldable pub checked :
    (Cipher → Bytes → Cipher × Bytes) → Cipher → Bytes → Bytes → Cipher × Result IgeError Bytes
checked round c input out = unless_refused (is_correct_data input) c (
    if ltb (length out) (length input)
    then (c, err output_too_short)
    else store out (rounds round (rounds_of (length input)) c input))

unfoldable pub do_aes256_ige_encrypt : Cipher → Bytes → Bytes → Cipher × Result IgeError Bytes
do_aes256_ige_encrypt c input out = checked encrypt_round c input out

unfoldable pub do_aes256_ige_decrypt : Cipher → Bytes → Bytes → Cipher × Result IgeError Bytes
do_aes256_ige_decrypt c input out = checked decrypt_round c input out
