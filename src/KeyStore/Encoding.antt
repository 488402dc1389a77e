-- ===== src/KeyStore/Encoding.antt =====
-- The helpers of LocalKeyStore.cc on bytes: base64, key derivation, names.
use kingdom.Base.{
  ℕ, zero, suc, ◌+◌, ◌*◌, ◌/◌, ◌%◌, ◌^◌, Bytes, codes, Bool, ◌&&◌, ◌||◌, Option, [], ◌∷◌, ◌++◌, map,
  length, leb, ◌==◌, is_empty, if◌then◌else◌,
}
use kingdom.Outcome.{Result, ok, runtime_error, or_err, guard, ◌>>=◌, ◌>>◌}
use kingdom.Toolkit.{Crypto}
use kingdom.Drive.{join, home_directory}

module _ (c : Crypto) where
  unfoldable pub ensure_sodium_initialized : Result (Unit {0})
  ensure_sodium_initialized = guard c.ready (runtime_error "Failed to initialize libsodium")

  unfoldable pub base64_decode : Bytes → Result Bytes
  base64_decode encoded = or_err (runtime_error "Invalid base64 field") (c.unbase64 encoded)

  -- base64DecodeArray<N>
  unfoldable pub base64_decode_array : ℕ → Bytes → Result Bytes
  base64_decode_array n encoded = do
    decoded ← base64_decode encoded
    guard (length decoded == n) (runtime_error "Unexpected decoded size for field")
    ok decoded

  unfoldable pub derive_key : Bytes → Bytes → Bytes → Result Bytes
  derive_key secret info salt =
      or_err (runtime_error "Failed to derive HKDF key") (c.hkdf secret info salt)

-- The loop of appendUint64Le over the bytes from the i-th.
unfoldable pub append_bytes_le : ℕ → ℕ → ℕ → Bytes → Bytes
append_bytes_le zero i number out = out
append_bytes_le (suc rounds) i number out =
    append_bytes_le rounds (i + 1) number (out ++ (number / 2 ^ (i * 8) % 256) ∷ [])

unfoldable pub append_uint64_le : Bytes → ℕ → Bytes
unfolding append_bytes_le
append_uint64_le out number = append_bytes_le 8 0 number out

unfoldable pub is_safe : ℕ → Bool
is_safe chr =
    (leb b'a' chr && leb chr b'z')
    || (leb b'A' chr && leb chr b'Z')
    || (leb b'0' chr && leb chr b'9')
    || chr == b'-'
    || chr == b'_'

unfoldable pub sanitized_username : Bytes → Bytes
sanitized_username username =
    let text : Bytes = map (λ (chr : ℕ). if is_safe chr then chr else b'_') username in
    if is_empty text then codes "user" else text

unfoldable pub default_key_path : Option Bytes → Bytes → Result Bytes
default_key_path home username = do
  dir ← home_directory (runtime_error "HOME is not set; cannot choose local key file path") home
  ok (
      join (join (join dir (codes ".kingdom")) (codes "keys"))
        (sanitized_username username ++ codes ".json"))
