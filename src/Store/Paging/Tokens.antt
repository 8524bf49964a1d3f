-- ===== src/Store/Paging/Tokens.antt =====
-- What a page token carries from one call to the next.
use Prim.Native.Nat.{bit_xor}
use perseus.Prelude.{
  ℕ, ◌+◌, ◌*◌, ◌%◌, ◌^◌, ◌<◌, ◌≡◌, ◌≢◌, ◌↔◌, Text, refl, true, false, List, [], ◌∷◌, ◌==◌, ==_refl,
  ==_iff, Bool-cases, inl, inr, ok, err, arith, utf8, is_empty,
}
use perseus.Prelude.Int.{ℤ, pos, ltb_ℤ, add_int64-pos, int64_half}
use perseus.Store.Paging.Codecs.{PageToken, Codec, CodecLaws, IsPageToken}
use perseus.Store.Paging.{
  fnv_write, fnv_offset, fnv_prime, hash_key, encode_page_token, decode_page_token, read_json,
  different_operation,
}

fnv_write-lt : (h : ℕ) (s : List ℕ) → h < 2 ^ 32 → fnv_write h s < 2 ^ 32
unfolding fnv_write
fnv_write-lt h [] l = l
fnv_write-lt h (c ∷ s) l = fnv_write-lt ((bit_xor h c * fnv_prime) % 2 ^ 32) s (omega arith)

pub hash_key-lt : (key : Text) → hash_key key < 2 ^ 32
unfolding hash_key
hash_key-lt key = fnv_write-lt fnv_offset (utf8 key) (omega arith)

abbrev next_token : Text → ℕ → PageToken
next_token key offset = record { filter_id = hash_key key; offset = pos offset }

next_token-IsPageToken :
    (key : Text) (offset : ℕ) → offset < int64_half → IsPageToken (next_token key offset)
next_token-IsPageToken key offset fits = (hash_key-lt key, fits, omega arith)

module _ (codec : Codec) (laws : CodecLaws codec) where
  -- A token that was made for a full page leads back to the offset behind that page, under the
  -- key that it was made for, as long as the offset is an int.
  pub decode-encode :
      (key : Text) (n offset page : ℕ)
      → ltb_ℤ (pos n) (pos page) ≡ false
      → offset + n < int64_half
      → decode_page_token codec (encode_page_token codec key n (pos offset) (pos page)) key
        ≡ ok (pos (offset + n))
  unfolding decode_page_token encode_page_token
  decode-encode key n offset page full fits = rw (
    full,
    add_int64-pos offset n fits,
    laws.base64_round_trip,
    laws.json_round_trip (next_token key (offset + n))
        (next_token-IsPageToken key (offset + n) fits),
    read_json,
    ==_refl,
  )

  -- A token that was made for a full page is refused under a key with another hash, as long as
  -- the offset behind the page is an int.
  pub decode-encode-other :
      (key other : Text) (n offset page : ℕ)
      → ltb_ℤ (pos n) (pos page) ≡ false
      → offset + n < int64_half
      → hash_key other ≢ hash_key key
      → decode_page_token codec (encode_page_token codec key n (pos offset) (pos page)) other
        ≡ err different_operation
  unfolding decode_page_token encode_page_token
  decode-encode-other key other n offset page full fits ne =
      rw
        (
          full,
          add_int64-pos offset n fits,
          laws.base64_round_trip,
          laws.json_round_trip (next_token key (offset + n))
              (next_token-IsPageToken key (offset + n) fits),
          read_json,
        )
        (elim (Bool-cases (hash_key other == hash_key key)) [
          | inl e ↦ absurd (ne ((==_iff _ _).0 e))
          | inr e ↦ rw e
        ])

  -- A token is empty exactly if the page was not filled.
  pub encode-empty_iff :
      (key : Text) (n : ℕ) (offset page : ℤ)
      → (encode_page_token codec key n offset page ≡ []) ↔ (ltb_ℤ (pos n) page ≡ true)
  unfolding encode_page_token
  encode-empty_iff key n offset page = elim (Bool-cases (ltb_ℤ (pos n) page)) [
    | inl short ↦ rw short ((λ _. refl), (λ _. refl))
    | inr full ↦
        rw full
          ((λ e. absurd (laws.base64_nonempty _ (laws.json_nonempty _) e)), (λ e. absurd (cc)))
  ]

  -- Without a page size there is always a next token.
  pub is_empty-encode_page_token :
      (key : Text) (n : ℕ) (offset : ℤ)
      → is_empty (encode_page_token codec key n offset (pos 0)) ≡ false
  is_empty-encode_page_token key n offset =
      nonempty (encode_page_token codec key n offset (pos 0))
        (λ e. ground (arith, (encode-empty_iff key n offset (pos 0)).0 e))
    where
      nonempty : (t : Text) → t ≢ [] → is_empty t ≡ false
      nonempty [] h = absurd (h refl)
      nonempty (c ∷ t) h = refl
