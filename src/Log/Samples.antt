-- ===== src/Log/Samples.antt =====
-- A logger whose handler takes every record, and one whose handler fails.
use perseus.Prelude.{
  ◌≡◌, refl, codes, Text, true, false, Option, none, some, List, [], ◌∷◌, text_eq,
}
use perseus.Log.{
  process_level, AnyValue, text_value, source_value, debug_level, info_level, error_level,
  LogRecord, Logging, replace_record_attributes, dump_log_handler_error, info, debug, error,
}
use perseus.Log.Records.{arguments, hands, logged}
use perseus.Log.Failures.{dump_log_handler_error-any_message}

abbrev logging : Logging
logging = record {
  minimum = process_level true;
  handle = λ rec. none;
  in_k8s = false;
  time = codes "now";
  marshal = λ values. [];
  show_any = λ v. [];
}

abbrev module_a : List (Text × AnyValue)
module_a = (codes "module", text_value (codes "a")) ∷ []

logged_example :
    (info logging (codes "m") (arguments module_a none)
      ≡ hands info_level none (codes "m") module_a none)
    × (debug logging (codes "m") (arguments module_a none)
        ≡ hands debug_level none (codes "m") module_a none)
    × ((e : Option Text)
        → error logging e (codes "m") (arguments module_a none)
          ≡ hands error_level e (codes "m") module_a none)
logged_example = logged logging (λ rec. refl) (codes "m") module_a true none refl

abbrev saved : LogRecord
saved = record { level = info_level; message = codes "saved"; attrs = [] }

written_to_standard_error :
    dump_log_handler_error logging (codes "no \"space\"") saved
    ≡ some (
        codes
          "time=now level=ERROR source= msg=\"failure invoking slog.Handler.Handle()\" orginalMsg=\"\" error=\"no \\\"space\\\"\"\n")
unfolding dump_log_handler_error text_eq
written_to_standard_error = refl

dump_log_handler_error-any_message_example :
    dump_log_handler_error logging (codes "full") (record saved { message = codes "lost" })
    ≡ dump_log_handler_error logging (codes "full") saved
dump_log_handler_error-any_message_example =
    dump_log_handler_error-any_message logging (codes "full") saved (codes "lost") refl

source_trimmed :
    replace_record_attributes (record {
      key = codes "source";
      value = source_value (codes "/go/github.com/CrowdStrike/perseus/main.go") (codes "7");
    })
    ≡ some (record { key = codes "source"; value = source_value (codes "main.go") (codes "7") })
unfolding replace_record_attributes
source_trimmed = refl
