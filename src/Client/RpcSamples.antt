-- ===== src/Client/RpcSamples.antt =====
-- The URL of a command against a database, and the text of `version`.
use perseus.Prelude.{
  ◌≡◌, refl, Text, codes, true, Option, none, some, [], ◌∷◌, ◌++◌, Result, text_eq,
}
use perseus.Store.Session.{Session}
use perseus.Store.Samples.{plain, list_codec, stored}
use perseus.Server.Messages.{ConnectError}
use perseus.Server.Backend.{Handler, postgres_client}
use perseus.Server.Samples.{simple_check}
use perseus.Server.Rpc
use perseus.Server.Rpc.{Procedure, Handlers, http_handler}
use perseus.Server.Rpc.Service.{Request, Answer, connect_server}
use perseus.Client.Config.{ClientConfig, client_address}
use perseus.Client.Rpc.{command_url, serving, Trimmed, command_url-served}
use perseus.Client.Main.{run_version, version_text, read_settings, read_setting}

abbrev plain_address : ClientConfig
plain_address = record { server_addr = codes "http://perseus:31138//"; disable_tls = true }

abbrev ServedBy : Type 0
ServedBy = Option ((p : Procedure) × (Request p → Result ConnectError (Answer p)))

abbrev unserved : Handlers ServedBy
unserved = record {
  procedure = λ p. none;
  transcode = λ ch path. ch path;
  endpoint = λ e. none;
  redirect = λ target. none;
  not_found = none;
}

-- What serves a request, as what comes of it on the database.
abbrev run_unary : (p : Procedure) → (Request p → Handler Session (Answer p)) → ServedBy
run_unary p handler = some (p, λ req. (handler req stored).0)

command_url-served_example :
    (base path : Text) × (command_url plain_address Rpc.list_modules ≡ (base ++ path))
    × Trimmed (client_address plain_address) base
    × (http_handler
          (serving run_unary
            (postgres_client plain list_codec)
            simple_check
            unserved
            (λ ch p. refl))
          path
        ≡ run_unary Rpc.list_modules
            (connect_server (postgres_client plain list_codec) simple_check Rpc.list_modules))
command_url-served_example =
    command_url-served run_unary (postgres_client plain list_codec) simple_check unserved
      (λ ch p. refl) plain_address Rpc.list_modules

-- A build that recorded its revision twice: the last one is printed.
run_version_test :
    run_version
      (codes "v1.2.3")
      (codes "today")
      (record {
        commit_date = codes "unknown";
        commit_hash = codes "unknown";
        goos = [];
        goarch = [];
      })
      (record {
        go_version = codes "go1.22";
        settings =
            (codes "vcs.revision", codes "abc")
            ∷ (codes "GOOS", codes "linux")
            ∷ (codes "-tags", codes "x")
            ∷ (codes "vcs.revision", codes "def")
            ∷ (codes "GOARCH", codes "arm64")
            ∷ [];
      })
    ≡ codes
        "perseus - Defeating krakens since 2022\n\tv1.2.3 (built today, go1.22 linux/arm64)\n\tcommit: def (date: unknown)\n"
unfolding run_version version_text read_settings read_setting text_eq
run_version_test = refl
