-- ===== src/Log/Failures.antt =====
-- What is written where the handler of the logger fails.
use perseus.Prelude.{◌≡◌, refl, Text, false}
use perseus.Log.{LogRecord, Logging, dump_log_handler_error}

-- Outside Kubernetes, what is written about a record that the handler refused is the same whatever
-- the message of the record.
pub dump_log_handler_error-any_message :
    (l : Logging) (error : Text) (rec : LogRecord) (message : Text)
    → l.in_k8s ≡ false
    → dump_log_handler_error l error (record rec { message = message })
      ≡ dump_log_handler_error l error rec
unfolding dump_log_handler_error
dump_log_handler_error-any_message l error rec message h = rw h refl
