-- ===== src/Store/Paging.antt =====
-- internal/store/paging.go: page tokens. FNV-1a is modelled; JSON and base64 are parameters.
pub mod Codecs
pub mod Tokens
use Prim.Native.Nat.{bit_xor}
use perseus.Prelude.{
  ℕ, ◌+◌, ◌*◌, ◌%◌, ◌^◌, Text, Bool, true, false, Option, none, some, List, [], ◌∷◌, ◌==◌,
  if◌then◌else◌, Result, ok, err, utf8,
}
use perseus.Prelude.Int.{ℤ, pos, ltb_ℤ, add_int64}
use perseus.Store.Paging.Codecs.{PageToken, Codec}

-- hash/fnv: the offset basis and the prime of the 32-bit FNV-1a hash.
abbrev pub fnv_offset : ℕ
fnv_offset = 2166136261

abbrev pub fnv_prime : ℕ
fnv_prime = 16777619

-- h.Write: each byte is folded in, modulo 2^32.
unfoldable pub fnv_write : ℕ → List ℕ → ℕ
fnv_write h [] = h
fnv_write h (c ∷ s) = fnv_write ((bit_xor h c * fnv_prime) % 2 ^ 32) s

-- A hasher of the pool is always reset, so that it starts from the offset basis.
unfoldable pub hash_key : Text → ℕ
unfolding fnv_write utf8
hash_key key = fnv_write fnv_offset (utf8 key)

-- `n` results were returned from `offset` on; `page` is the count that was asked for.
unfoldable pub encode_page_token : Codec → Text → ℕ → ℤ → ℤ → Text
unfolding hash_key
encode_page_token codec key n offset page =
    if ltb_ℤ (pos n) page
    then []
    else codec.base64_encode (
        codec.json_marshal (record { filter_id = hash_key key; offset = add_int64 offset (pos n) }))

-- The errors of `decodePageToken`, in the order of its checks.
pub data TokenError : Type 0 where
  not_base64 : TokenError
  not_json : TokenError
  different_operation : TokenError

abbrev pub check_token : ℕ → PageToken → Result TokenError ℤ
check_token filter tok = if filter == tok.filter_id then ok tok.offset else err different_operation

abbrev pub read_json : Codec → ℕ → Option (List ℕ) → Result TokenError ℤ
read_json codec filter none = err not_base64
read_json codec filter (some bytes) = elim (codec.json_unmarshal bytes) [
  | none ↦ err not_json
  | some tok ↦ check_token filter tok
]

unfoldable pub decode_page_token : Codec → Text → Text → Result TokenError ℤ
unfolding hash_key
decode_page_token codec s key = read_json codec (hash_key key) (codec.base64_decode s)
