-- ===== src/Server/Connection.antt =====
-- The connection string of internal/server/server.go, with url.PathEscape.
use perseus.Prelude.{
  ℕ, ◌+◌, ◌/◌, ◌%◌, Bool, ◌||◌, ◌&&◌, List, [], ◌∷◌, ◌++◌, if◌then◌else◌, ltb, leb, Text, codes,
  contains_rune, utf8,
}
use perseus.Server.Config.{ServerConfig}

abbrev is_alphanumeric : ℕ → Bool
is_alphanumeric c =
    leb b'a' c && leb c b'z' || (leb b'A' c && leb c b'Z' || leb b'0' c && leb c b'9')

-- The bytes that url.PathEscape leaves as they are.
unfoldable pub is_kept : ℕ → Bool
is_kept c = is_alphanumeric c || contains_rune c (codes "-_.~$&+=:@")

abbrev pub hex_digit : ℕ → ℕ
hex_digit d = if ltb d 10 then b'0' + d else 55 + d

unfoldable pub escape_byte : ℕ → Text
escape_byte b = if is_kept b then b ∷ [] else b'%' ∷ hex_digit (b / 16) ∷ hex_digit (b % 16) ∷ []

unfoldable pub escape : List ℕ → Text
escape [] = []
escape (b ∷ bs) = escape_byte b ++ escape bs

-- url.PathEscape
unfoldable pub path_escape : Text → Text
unfolding escape escape_byte is_kept utf8
path_escape t = escape (utf8 t)

-- fmt.Sprintf("postgres://%s:%s@%s/%s", ...)
unfoldable pub connection_string : ServerConfig → Text
unfolding path_escape
connection_string conf =
    codes "postgres://"
    ++ (path_escape conf.db_user
        ++ b':' ∷ path_escape conf.db_pwd
        ++ b'@' ∷ path_escape conf.db_addr
        ++ b'/' ∷ path_escape conf.db_name)
