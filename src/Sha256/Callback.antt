-- ===== src/Sha256/Callback.antt =====
-- src/v8/builtins/crypto.cc: `HashCallback`.
use kode.Prelude.{◌≡◌, refl, not, List, [], ◌∷◌, ◌++◌, drop, if◌then◌else◌}
use kode.Text.{Bytes, codes, equal, v8_string}
use kode.Values.{Input, string, Result, returns, throws, kode_error, read_string_arg}
use kode.Sha256.{sha256, to_hex}

pub record Hashed : Type 0 where
  pub algorithm : Bytes
  pub hex : Bytes

abbrev operation : Bytes
operation = codes "kode:crypto.hash"

hash_with : Bytes → Bytes → Result Hashed
hash_with algorithm input =
    if not (equal algorithm (codes "sha256"))
    then throws (
        kode_error (codes "EUNSUPPORTED_ALGORITHM")
          (codes "Unsupported hash algorithm '" ++ (algorithm ++ codes "'")) operation algorithm)
    else returns (record { algorithm = codes "sha256"; hex = v8_string (to_hex (sha256 input)) })

hash_second : Bytes → Result Bytes → Result Hashed
hash_second algorithm (throws error) = throws error
hash_second algorithm (returns input) = hash_with algorithm input

hash_first : List Input → Result Bytes → Result Hashed
unfolding hash_second
hash_first args (throws error) = throws error
hash_first args (returns algorithm) =
    hash_second algorithm (read_string_arg operation (drop 1 args))

-- `HashCallback`.
unfoldable pub hash_callback : List Input → Result Hashed
unfolding hash_first hash_with
hash_callback args = hash_first args (read_string_arg operation args)

unsupported :
    hash_callback (string (codes "md5") ∷ string [] ∷ [])
    ≡ throws (
        kode_error
          (codes "EUNSUPPORTED_ALGORITHM")
          (codes "Unsupported hash algorithm 'md5'")
          operation
          (codes "md5"))
unfolding hash_callback hash_second read_string_arg equal
unsupported = refl
