-- ===== src/Aes/Tests.antt =====
-- Witnesses at a toy block cipher, which adds a constant.
use gogram.Common.{
  ℕ, ◌%◌, ◌≡◌, refl, ◌∙◌, false, some, [], ◌∷◌, length, length-replicate, replicate, All-replicate,
  arith,
}
use gogram.Common.Bytes.{Bytes, IsByte, IsBytes}
use gogram.Aes.Ige.{Block, IsBlock, Cipher, xor_bytes}
use gogram.Aes.Ige.RoundTrip.{IsCipher, OpensTo, decrypt-encrypt_ige}
use gogram.Aes.Ige.Xor.{xor_bytes_cancel, length-xor_bytes, xor_bytes-IsBytes}
use gogram.Aes.Message.{Crypto, IsCrypto}
use gogram.Aes.Message.RoundTrip.{Delivered, decrypt-encrypt_message}
use gogram.Aes.Padding.{pkcs5_padding, pkcs5_un_padding, pkcs5_un_padding-pkcs5_padding}

abbrev pad_key : Bytes
pad_key = replicate 16 7

abbrev toy_block : Block
toy_block = record {
  encrypt_block = λ p. xor_bytes p pad_key;
  decrypt_block = λ p. xor_bytes p pad_key;
}

pad_key-IsBytes : IsBytes pad_key
pad_key-IsBytes = All-replicate IsByte 16 7 (omega arith)

toy_block-IsBlock : IsBlock toy_block
toy_block-IsBlock = record {
  length-encrypt_block = λ p h. length-xor_bytes p pad_key h ∙ h;
  encrypt_block-IsBytes = λ p h. xor_bytes-IsBytes p pad_key h pad_key-IsBytes;
  decrypt_block-encrypt_block = λ p h k. xor_bytes_cancel p pad_key h;
}

abbrev toy_cipher : Cipher
toy_cipher = record {
  block = toy_block;
  previous_ciphertext = replicate 16 1;
  previous_plaintext = replicate 16 2;
}

toy_cipher-IsCipher : IsCipher toy_cipher
toy_cipher-IsCipher = record {
  lawful = toy_block-IsBlock;
  length-ciphertext = refl;
  length-plaintext = refl;
  ciphertext-IsBytes = All-replicate IsByte 16 1 (omega arith);
  plaintext-IsBytes = All-replicate IsByte 16 2 (omega arith);
}

abbrev two_blocks : Bytes
two_blocks = replicate 32 5

ige_example : OpensTo toy_cipher two_blocks (replicate 33 0) two_blocks
ige_example =
    decrypt-encrypt_ige toy_cipher 1 two_blocks (replicate 33 0) two_blocks toy_cipher-IsCipher
      (All-replicate IsByte 32 5 (omega arith)) refl (omega arith) (omega arith)

abbrev pub toy_hash : Bytes → Bytes
toy_hash b = replicate 32 (length b % 256)

abbrev pub toy_crypto : Crypto
toy_crypto = record {
  sha256 = toy_hash;
  new_aes = λ key. some toy_block;
  rand = λ n. some (replicate n 9);
}

pub toy_crypto-IsCrypto : IsCrypto toy_crypto
toy_crypto-IsCrypto = record {
  length-sha256 = λ b. length-replicate 32 (length b % 256);
  sha256-IsBytes = λ b. All-replicate IsByte 32 (length b % 256) (omega arith);
  block_of = λ key h. (toy_block, refl, toy_block-IsBlock);
  drawn = λ n. (replicate n 9, refl, length-replicate n 9, All-replicate IsByte n 9 (omega arith));
}

delivered_example :
    Delivered toy_crypto toy_crypto-IsCrypto (1 ∷ 2 ∷ 3 ∷ []) (replicate 256 4) false
delivered_example =
    decrypt-encrypt_message toy_crypto toy_crypto-IsCrypto (1 ∷ 2 ∷ 3 ∷ []) (replicate 256 4) false
      (omega arith, (omega arith, (omega arith, tt))) (length-replicate {A = ℕ} 256 4)

padding_example :
    (length (pkcs5_padding (1 ∷ 2 ∷ 3 ∷ []) 16) % 16 ≡ 0)
    × (pkcs5_un_padding (pkcs5_padding (1 ∷ 2 ∷ 3 ∷ []) 16) 16 ≡ some (1 ∷ 2 ∷ 3 ∷ []))
padding_example = pkcs5_un_padding-pkcs5_padding (1 ∷ 2 ∷ 3 ∷ []) 16 (omega arith) (omega arith)
