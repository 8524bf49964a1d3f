-- ===== src/Store/Paging/Codecs.antt =====
-- The two encodings of a page token: encoding/json on the struct `pageToken`, and
-- encoding/base64 with the standard alphabet.
use perseus.Prelude.{ℕ, ◌<◌, ◌^◌, Text, Option, some, List, [], ◌≡◌, ◌≢◌}
use perseus.Prelude.Int.{ℤ, pos_part, neg_part, int64_half}

pub record PageToken : Type 0 where
  pub filter_id : ℕ
  pub offset : ℤ

pub record Codec : Type 0 where
  pub json_marshal : PageToken → List ℕ
  pub json_unmarshal : List ℕ → Option PageToken
  pub base64_encode : List ℕ → Text
  pub base64_decode : Text → Option (List ℕ)

-- A value of the Go struct: a uint32 and an int.
abbrev pub IsPageToken : PageToken → Type 0
IsPageToken tok =
    (tok.filter_id < 2 ^ 32)
    × (pos_part tok.offset < int64_half)
    × (neg_part tok.offset < int64_half)

-- The documented behaviour of the two packages on what the program hands them.
pub record CodecLaws (codec : Codec) : Type 0 where
  pub json_round_trip :
      (tok : PageToken) → IsPageToken tok → codec.json_unmarshal (codec.json_marshal tok) ≡ some tok
  pub base64_round_trip :
      (bytes : List ℕ) → codec.base64_decode (codec.base64_encode bytes) ≡ some bytes
  pub json_nonempty : (tok : PageToken) → codec.json_marshal tok ≢ []
  pub base64_nonempty : (bytes : List ℕ) → bytes ≢ [] → codec.base64_encode bytes ≢ []
