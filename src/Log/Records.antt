-- ===== src/Log/Records.antt =====
-- Which calls of the logger reach the handler, and with which record.
use perseus.Prelude.{
  ◌≡◌, refl, sym, ap, append-nil, codes, Text, Bool, true, false, Option, none, some, List, [], ◌∷◌,
  ◌++◌, map, if◌then◌else◌,
}
use perseus.Log.{
  process_level, AnyValue, text_value, Attr, LogRecord, Level, debug_level, info_level, error_level,
  attrs_of, get_log_record, emit, Logging, LogEffect, handled, with_error, info, debug, error,
}

-- Keys and values in the order of the arguments of a call.
abbrev pub in_turn : List (Text × AnyValue) → List AnyValue
in_turn [] = []
in_turn ((k, v) ∷ kvs) = text_value k ∷ v ∷ in_turn kvs

abbrev pub attr_of : Text × AnyValue → Attr
attr_of (k, v) = record { key = k; value = v }

attrs_of-in_turn :
    (show_any : AnyValue → Text) (kvs : List (Text × AnyValue))
    → attrs_of show_any (in_turn kvs) ≡ some (map attr_of kvs)
unfolding attrs_of
attrs_of-in_turn show_any [] = refl
attrs_of-in_turn show_any (kv ∷ kvs) = rw (attrs_of-in_turn show_any kvs) refl

attrs_of-lone_key :
    (show_any : AnyValue → Text) (kvs : List (Text × AnyValue)) (k : AnyValue)
    → attrs_of show_any (in_turn kvs ++ k ∷ []) ≡ none
unfolding attrs_of
attrs_of-lone_key show_any [] k = refl
attrs_of-lone_key show_any (kv ∷ kvs) k = rw (attrs_of-lone_key show_any kvs k) refl

-- The attribute of an error, where there is one: its text under the key `err`.
abbrev pub error_attrs : Option Text → List Attr
error_attrs none = []
error_attrs (some e) = record { key = codes "err"; value = text_value e } ∷ []

-- The record that a call makes: the keys and values, and the error behind them.
abbrev pub record_of : Level → Option Text → Text → List (Text × AnyValue) → LogRecord
record_of level e message kvs = record {
  level = level;
  message = message;
  attrs = map attr_of kvs ++ error_attrs e;
}

with_error-record_of :
    (level : Level) (e : Option Text) (message : Text) (kvs : List (Text × AnyValue))
    → with_error e (record { level = level; message = message; attrs = map attr_of kvs })
      ≡ record_of level e message kvs
with_error-record_of level (some e) message kvs = refl
with_error-record_of level none message kvs =
    ap (λ attrs. record { level = level; message = message; attrs = attrs })
      (sym (append-nil (map attr_of kvs)))

-- A call with keys and values, and behind them a key without a value where one is given.
abbrev pub arguments : List (Text × AnyValue) → Option AnyValue → List AnyValue
arguments kvs none = in_turn kvs
arguments kvs (some k) = in_turn kvs ++ k ∷ []

-- What a call at an enabled level does: a key without a value is a panic.
abbrev pub hands :
    Level → Option Text → Text → List (Text × AnyValue) → Option AnyValue → Option (List LogEffect)
hands level e message kvs none = some (handled (record_of level e message kvs) ∷ [])
hands level e message kvs (some k) = none

module _ (l : Logging) (handles : (rec : LogRecord) → l.handle rec ≡ none) (message : Text)
    (kvs : List (Text × AnyValue)) where
  handed : (rec : LogRecord) → emit l rec ≡ some (handled rec ∷ [])
  unfolding emit
  handed rec = rw (emit, handles rec) refl

  get_log_record-emit :
      (level : Level) (e : Option Text) (lone_key : Option AnyValue)
      → elim (get_log_record l.show_any level message (arguments kvs lone_key)) [
        | none ↦ none
        | some rec ↦ emit l (with_error e rec)
      ]
        ≡ hands level e message kvs lone_key
  unfolding get_log_record
  get_log_record-emit level e none =
      rw (attrs_of-in_turn l.show_any kvs, with_error-record_of level e message kvs)
        (handed (record_of level e message kvs))
  get_log_record-emit level e (some k) = rw (attrs_of-lone_key l.show_any kvs k) refl

  -- With the level of the process and a handler that does not fail, Info and Error hand the handler
  -- one record with the keys and values in their order, Error with the text of its error behind
  -- them under the key err, if there is one; Debug does so in debug mode, and nothing outside of
  -- it. A key without a value is a panic exactly where a record would be made.
  pub logged :
      (debug_mode : Bool) (lone_key : Option AnyValue)
      → l.minimum ≡ process_level debug_mode
      → (info l message (arguments kvs lone_key) ≡ hands info_level none message kvs lone_key)
        × (debug l message (arguments kvs lone_key)
            ≡ (if debug_mode then hands debug_level none message kvs lone_key else some []))
        × ((e : Option Text)
            → error l e message (arguments kvs lone_key) ≡ hands error_level e message kvs lone_key)
  unfolding info debug error process_level
  logged true lone_key h = (
    rw h (get_log_record-emit info_level none lone_key),
    rw h (get_log_record-emit debug_level none lone_key),
    λ e. rw h (get_log_record-emit error_level e lone_key),
  )
  logged false lone_key h = (
    rw h (get_log_record-emit info_level none lone_key),
    rw h refl,
    λ e. rw h (get_log_record-emit error_level e lone_key),
  )
