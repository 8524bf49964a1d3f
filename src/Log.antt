-- ===== src/Log.antt =====
-- internal/log/logger.go and log.go: what the methods of the logger write. The slog handler, the
-- clock, the JSON encoder and the verb %v are parameters.
pub mod Records
pub mod Failures
mod Samples
use perseus.Prelude.{
  Text, codes, Bool, true, false, not, ◌||◌, Option, none, some, List, [], ◌∷◌, ◌++◌, map, join,
  if◌then◌else◌, ◌==◌, text_eq, cut_prefix,
}
use perseus.Prelude.Int.{ℤ, pos, negsuc, ltb_ℤ}

-- slog.LevelDebug, LevelInfo and LevelError
pub data Level : Type 0 where
  debug_level info_level error_level : Level

abbrev pub level_number : Level → ℤ
level_number debug_level = negsuc 3
level_number info_level = pos 0
level_number error_level = pos 8

-- logLevelVar.Level
unfoldable pub process_level : Bool → ℤ
process_level debug_mode = if debug_mode then level_number debug_level else level_number info_level

-- A value of type any: a string, a *slog.Source as its file and its line, or another one, as the
-- text that %v gives.
pub data AnyValue : Type 0 where
  text_value other_value : Text → AnyValue
  source_value : Text → Text → AnyValue

-- slog.Attr
pub record Attr : Type 0 where
  pub key : Text
  pub value : AnyValue

-- slog.Record, less its time and its program counter
pub record LogRecord : Type 0 where
  pub level : Level
  pub message : Text
  pub attrs : List Attr

-- k, ok := kvs[i].(string); if !ok, what %v gives.
abbrev pub key_of : (AnyValue → Text) → AnyValue → Text
key_of show_any (text_value t) = t
key_of show_any v = show_any v

-- The loop over the pairs; `none` is a panic, where the last key has no value.
unfoldable pub attrs_of : (AnyValue → Text) → List AnyValue → Option (List Attr)
attrs_of show_any [] = some []
attrs_of show_any (k ∷ []) = none
attrs_of show_any (k ∷ v ∷ kvs) = elim (attrs_of show_any kvs) [
  | none ↦ none
  | some attrs ↦ some (record { key = key_of show_any k; value = v } ∷ attrs)
]

unfoldable pub get_log_record : (AnyValue → Text) → Level → Text → List AnyValue → Option LogRecord
unfolding attrs_of
get_log_record show_any level message kvs = elim (attrs_of show_any kvs) [
  | none ↦ none
  | some attrs ↦ some (record { level = level; message = message; attrs = attrs })
]

-- What follows the first occurrence of a text, if there is one.
abbrev pub behind : Text → Text → Option Text
behind needle [] = cut_prefix [] needle
behind needle (c ∷ s) = elim (cut_prefix (c ∷ s) needle) [
  | none ↦ behind needle s
  | some rest ↦ some rest
]

-- The attributes before output; `none` is the panic of a type assertion that fails.
unfoldable pub replace_record_attributes : Attr → Option Attr
unfolding text_eq
replace_record_attributes a =
    if text_eq a.key (codes "source")
    then elim a.value [
      | text_value t ↦ none
      | other_value t ↦ none
      | source_value file line ↦ elim (behind (codes "github.com/CrowdStrike/perseus/") file) [
        | none ↦ some a
        | some rest ↦ some (record a { value = source_value rest line })
      ]
    ]
    else some a

-- The source among the attributes, as file and line; the last one counts.
abbrev pub source_from : Text → List Attr → Option Text
source_from found [] = some found
source_from found (a ∷ attrs) =
    let without = source_from found attrs in
    if text_eq a.key (codes "source")
    then elim a.value [
      | text_value t ↦ none
      | other_value t ↦ none
      | source_value file line ↦ source_from (file ++ b':' ∷ line) attrs
    ]
    else without

-- logData: the keys and values of the message about a failure
abbrev pub log_data : Text → Text → Text → Text → List (Text × Text)
log_data time source message error =
    (codes "time", time)
    ∷ (codes "level", codes "ERROR")
    ∷ (codes "source", source)
    ∷ (codes "msg", codes "failure invoking slog.Handler.Handle()")
    ∷ (codes "originalMsg", message)
    ∷ (codes "error", error)
    ∷ []

-- logData[k], which is empty for a key that is missing
abbrev pub data_at : Text → List (Text × Text) → Text
data_at k [] = []
data_at k ((key, value) ∷ rest) = if text_eq key k then value else data_at k rest

-- strings.ReplaceAll(v, "\"", "\\\"")
abbrev pub escape_quotes : Text → Text
escape_quotes [] = []
escape_quotes (c ∷ s) = if c == 34 then 92 ∷ 34 ∷ escape_quotes s else c ∷ escape_quotes s

-- The keys in the order of the output; the fifth is spelled as in the code.
abbrev pub output_keys : List Text
output_keys =
    codes "time"
    ∷ codes "level"
    ∷ codes "source"
    ∷ codes "msg"
    ∷ codes "orginalMsg"
    ∷ codes "error"
    ∷ []

abbrev pub is_plain : Text → Bool
is_plain k = text_eq k (codes "time") || (text_eq k (codes "level") || text_eq k (codes "source"))

abbrev pub output_key : Text → Text
output_key k = if text_eq k (codes "originalMsg") then codes "original_msg" else k

abbrev pub output_field : List (Text × Text) → Text → Text
output_field values k =
    let v = data_at k values in
    output_key k
    ++ codes "="
    ++ (if is_plain (output_key k) then v else 34 ∷ (escape_quotes v ++ 34 ∷ []))

-- What the logger calls: the handler gives an error where it fails.
pub record Logging : Type 0 where
  pub minimum : ℤ
  pub handle : LogRecord → Option Text
  pub in_k8s : Bool
  pub time : Text
  pub marshal : List (Text × Text) → Text
  pub show_any : AnyValue → Text

-- What goes to standard error; `none` is a panic.
unfoldable pub dump_log_handler_error : Logging → Text → LogRecord → Option Text
unfolding text_eq
dump_log_handler_error l error rec = elim (source_from [] rec.attrs) [
  | none ↦ none
  | some source ↦
      let values = log_data l.time source rec.message error in
      some (
        (if l.in_k8s
          then l.marshal values
          else join (codes " ") (map (output_field values) output_keys))
        ++ codes "\n")
]

-- What a call of the logger does: the handler gets a record, or a failure is written.
pub data LogEffect : Type 0 where
  handled : LogRecord → LogEffect
  dumped : Text → LogEffect

-- h.Handle, and what follows where it fails
unfoldable pub emit : Logging → LogRecord → Option (List LogEffect)
unfolding dump_log_handler_error
emit l rec = elim (l.handle rec) [
  | none ↦ some (handled rec ∷ [])
  | some e ↦ elim (dump_log_handler_error l e rec) [
    | none ↦ none
    | some text ↦ some (handled rec ∷ dumped text ∷ [])
  ]
]

-- rec.Add(slog.String("err", err.Error()))
abbrev pub with_error : Option Text → LogRecord → LogRecord
with_error none rec = rec
with_error (some e) rec = record rec {
  attrs = rec.attrs ++ record { key = codes "err"; value = text_value e } ∷ [];
}

abbrev pub log_at : Logging → Level → Option Text → Text → List AnyValue → Option (List LogEffect)
log_at l level error message kvs =
    if not (ltb_ℤ (level_number level) l.minimum)
    then elim (get_log_record l.show_any level message kvs) [
      | none ↦ none
      | some rec ↦ emit l (with_error error rec)
    ]
    else some []

-- Info, Debug and Error
unfoldable pub info : Logging → Text → List AnyValue → Option (List LogEffect)
unfolding get_log_record emit
info l = log_at l info_level none

unfoldable pub debug : Logging → Text → List AnyValue → Option (List LogEffect)
unfolding get_log_record emit
debug l = log_at l debug_level none

unfoldable pub error : Logging → Option Text → Text → List AnyValue → Option (List LogEffect)
unfolding get_log_record emit
error l e = log_at l error_level e
