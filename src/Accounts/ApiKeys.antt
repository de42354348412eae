-- ===== src/Accounts/ApiKeys.antt =====
-- src/auth/api-keys.ts. The keyed hash of node:crypto, with the server's pepper, is a parameter, and
-- the random part of a new key an argument.
use shld.Prelude.{
  ℕ, ◌+◌, ◌*◌, zero, suc, Bool, ◌&&◌, List, [], ◌∷◌, ◌++◌, String, length, ltb, ◌==◌, if◌then◌else◌,
}
use shld.Prelude.Text.{codes, starts_with, text_eq}
use shld.Network.Address.{is_hex_digit, hex_value}

abbrev pub prefix_length : ℕ
prefix_length = 12

abbrev pub key_prefix : List ℕ
key_prefix = codes "shld_"

pub record GeneratedApiKey : Type 0 where
  pub raw : List ℕ
  pub key_start : List ℕ
  pub hash : String

-- `text.slice(0, n)`
unfoldable pub slice : ℕ → List ℕ → List ℕ
slice zero cs = []
slice (suc n) [] = []
slice (suc n) (c ∷ cs) = c ∷ slice n cs

module _ (hash_api_key : List ℕ → String) where
  unfoldable pub generate_api_key : List ℕ → GeneratedApiKey
  unfolding slice
  generate_api_key secret =
      let raw = key_prefix ++ secret in
      record { raw = raw; key_start = slice prefix_length raw; hash = hash_api_key raw }

unfoldable pub is_well_formed_api_key : List ℕ → Bool
unfolding starts_with
is_well_formed_api_key raw = starts_with raw key_prefix && ltb (length key_prefix + 16) (length raw)

-- `Buffer.from(text, "hex")`, which stops at the first pair that is not hexadecimal
unfoldable pub hex_bytes : List ℕ → List ℕ
hex_bytes [] = []
hex_bytes (a ∷ []) = []
hex_bytes (a ∷ b ∷ cs) =
    let rest = hex_bytes cs in
    if is_hex_digit a && is_hex_digit b then (hex_value a * 16 + hex_value b) ∷ rest else []

unfoldable pub safe_compare_hex : List ℕ → List ℕ → Bool
unfolding hex_bytes text_eq
safe_compare_hex a b =
    length (hex_bytes a) == length (hex_bytes b) && text_eq (hex_bytes a) (hex_bytes b)
