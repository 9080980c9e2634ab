-- ===== src/Session/KeyRing/Salts.antt =====
-- A salt goes to the key that opened its message.
use gogram.Common.{ℕ, ◌≡◌, ◌<◌, Bool, true, false, some, length}
use gogram.Common.Bytes.{Bytes, same_bytes}
use gogram.Session.KeyRing.{KeyRing, get_auth_key_for_hash, key_for_request, update_salt}

-- Four keys with hashes of 8 bytes, all different.
pub record Apart (m : KeyRing) : Type 0 where
  pub auth_size : length m.auth_key_hash ≡ 8
  pub temp_size : length m.temp_auth_key_hash ≡ 8
  pub pending_size : length m.pending_temp_key_hash ≡ 8
  pub auth_pending : same_bytes m.auth_key_hash m.pending_temp_key_hash ≡ false
  pub auth_temp : same_bytes m.auth_key_hash m.temp_auth_key_hash ≡ false
  pub auth_previous : same_bytes m.auth_key_hash m.previous_temp_key_hash ≡ false
  pub temp_pending : same_bytes m.temp_auth_key_hash m.pending_temp_key_hash ≡ false
  pub temp_auth : same_bytes m.temp_auth_key_hash m.auth_key_hash ≡ false
  pub pending_auth : same_bytes m.pending_temp_key_hash m.auth_key_hash ≡ false
  pub pending_temp : same_bytes m.pending_temp_key_hash m.temp_auth_key_hash ≡ false

-- The key that a hash names, and what a request of the kind `bind` goes with after the salt came.
pub record Follows (m : KeyRing) (hash key : Bytes) (bind : Bool) (salt : ℕ) : Type 0 where
  pub opens : get_auth_key_for_hash m hash ≡ key
  pub goes_with : key_for_request (update_salt m (some hash) salt) bind ≡ (key, salt)

pub data KeyKind : Type 0 where
  pending temporary permanent : KeyKind

abbrev pub hash_of : KeyRing → KeyKind → Bytes
hash_of m pending = m.pending_temp_key_hash
hash_of m temporary = m.temp_auth_key_hash
hash_of m permanent = m.auth_key_hash

abbrev pub key_of : KeyRing → KeyKind → Bytes
key_of m pending = m.pending_temp_auth_key
key_of m temporary = m.temp_auth_key
key_of m permanent = m.auth_key

-- A pending key is for the request that binds it.
abbrev pub binds : KeyKind → Bool
binds pending = true
binds temporary = false
binds permanent = false

-- Temporary keys are used where the client is set to, and the permanent one where it is not.
abbrev pub InUse : KeyRing → KeyKind → Type 0
InUse m pending = Unit {0}
InUse m temporary = (m.enable_pfs ≡ true) × (0 < length m.temp_auth_key)
InUse m permanent = m.enable_pfs ≡ false
