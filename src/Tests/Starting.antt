-- ===== src/Tests/Starting.antt =====
-- A first start in LAN mode, and requests to the server that it makes.
use mathlib.Core.Option.{some-injective}
use vrclog_companion.Prelude.{
  ℕ, ◌+◌, ◌-◌, ◌≡◌, refl, sym, ap, String, true, false, not, ◌||◌, Option, none, some, [], ◌∷◌,
  str_eq, ltb, ◌==◌, arith, if◌then◌else◌, ◌⊎◌,
}
use vrclog_companion.Event.{Time}
use vrclog_companion.Config.{
  Config, default_config, Secrets, current_schema_version, Disk, contents, missing, saved_secrets,
  load_secrets_from, load_config_from, normalize_config,
}
use vrclog_companion.Config.Env.{apply_env_overrides, parse_bool}
use vrclog_companion.Config.Startup.{
  Machine, text_length, password_length, password_from, generate_password, ensure_lan_auth,
  ensure_sse_secret, save_ensured, in_file, in_log, not_saved, silent, is_fallback, Startup, start,
}
use vrclog_companion.Config.Startup.Fresh.{IsMachine}
use vrclog_companion.Config.Startup.Login.{start-notice}
use vrclog_companion.Config.Startup.Again.{start-start}
use vrclog_companion.Api.Limiter.{is_locked}
use vrclog_companion.Api.Rate.{
  Bucket, requests, ticks, new_rate_limiter, allow, rate_middleware, run,
}
use vrclog_companion.Api.Rate.Isolation.{
  IsRefilling, answers_of, bucket_answers, run-bucket_answers,
}
use vrclog_companion.Api.Guard.{
  is_state_changing, csrf_middleware, is_allowed_host, basic_auth_middleware, is_match,
}
use vrclog_companion.Api.Guard.Sources.{is_own, source_host}
use vrclog_companion.Api.Server.{
  handle_health, handle_now, WebFs, Limits, HttpRequest, register_routes, find_route, spa_handler,
  page, Net, read_request,
}
use vrclog_companion.Api.Server.Serve.{
  main_server, main_limits, rate_limited, call_route, serve_mux, check_csrf, serve_checked, serve,
}
use vrclog_companion.Api.Server.Entry.{IsAdmitted}
use vrclog_companion.Api.Server.Entry.Lan.{serve-IsAdmitted}
use vrclog_companion.Api.Server.Entry.Open.{serve-page}
use vrclog_companion.Tests.Kits.{plain_kit}
use vrclog_companion.Tests.Records.{first_char}

program : Unit {0}
unfolding load_secrets_from load_config_from normalize_config apply_env_overrides parse_bool
    password_from generate_password ensure_lan_auth ensure_sse_secret save_ensured start
program = tt

abbrev machine : Machine
machine = record {
  env = λ name. "";
  atoi = λ s. none;
  fold = λ s. s;
  rand_int = λ max i. some i;
  rand_read = some "0123456789abcdef0123456789abcdef";
  encode = λ s. String.◌∷◌ (first_char "k") s;
  saves = true;
  writes = false;
}

machine-IsMachine : IsMachine machine
machine-IsMachine = record {
  filled = λ buf h. ap text_length (sym (some-injective _ _ h));
  encoded = λ buf h. refl;
}

abbrev lan_config : Config
lan_config = record default_config { lan_enabled = true }

abbrev empty_disk : Disk
empty_disk = record { config_file = contents lan_config; secrets_file = missing }

abbrev made_secrets : Secrets
made_secrets = record {
  schema_version = current_schema_version;
  discord_webhook_url = "";
  basic_auth_username = "admin";
  basic_auth_password = "ABCDEFGHIJKLMNOPQRSTUVWX";
  sse_hmac_secret = "k0123456789abcdef0123456789abcdef";
}

abbrev saved_disk : Disk
saved_disk = record empty_disk { secrets_file = saved_secrets made_secrets }

abbrev started : Startup
started = record {
  cfg = lan_config;
  secrets = made_secrets;
  notice = in_log "admin" "ABCDEFGHIJKLMNOPQRSTUVWX";
}

starts : start machine empty_disk ≡ (saved_disk, some started)
unfolding program
starts = refl

start-notice_example :
    (text_length made_secrets.basic_auth_password ≡ password_length)
    × (started.notice ≡ (
        if is_fallback (load_secrets_from missing).1
        then not_saved
        else if machine.writes
        then in_file "admin" "ABCDEFGHIJKLMNOPQRSTUVWX"
        else in_log "admin" "ABCDEFGHIJKLMNOPQRSTUVWX"))
unfolding program
start-notice_example = start-notice machine empty_disk saved_disk started starts refl refl

-- The next machine would draw other secrets.
abbrev other_machine : Machine
other_machine = record machine { rand_int = λ max i. some 61; rand_read = some "other" }

start-start_example :
    start other_machine saved_disk ≡ (saved_disk, some (record started { notice = silent }))
unfolding program
start-start_example =
    start-start machine other_machine empty_disk saved_disk started machine-IsMachine refl starts
      refl

-- Two requests at once, and full again after 10.
abbrev small_bucket : Bucket (ℕ × Time)
small_bucket = record {
  new = (2, 0);
  allow = λ now b.
      let tokens = if ltb (b.1 + 10) now then 2 else b.0 in (not (tokens == 0), (tokens - 1, now));
}

small_bucket-IsRefilling : IsRefilling small_bucket 10
small_bucket-IsRefilling = record { refills = λ b t later h. ground (arith, h) }

run-bucket_answers_example :
    answers_of "a" (
      run small_bucket
        (new_rate_limiter small_bucket 5)
        (requests "a" 1 ∷ requests "b" 2 ∷ requests "a" 3 ∷ ticks 20 ∷ requests "a" 20 ∷ []))
    ≡ bucket_answers small_bucket (2, 0) (1 ∷ 3 ∷ 20 ∷ [])
run-bucket_answers_example =
    run-bucket_answers small_bucket "a" 5 10 0
      (requests "a" 1 ∷ requests "b" 2 ∷ requests "a" 3 ∷ ticks 20 ∷ requests "a" 20 ∷ [])
      small_bucket-IsRefilling (omega arith)
      (omega arith, (omega arith, (omega arith, (omega arith, (omega arith, tt)))))

server_runs : Unit {0}
unfolding is_allowed_host csrf_middleware basic_auth_middleware is_match register_routes find_route
    spa_handler rate_limited call_route serve_mux check_csrf serve_checked serve allow is_locked
    rate_middleware
server_runs = tt

abbrev net : Net
net = record {
  parse_host = λ s. none;
  split_host_port = λ s. none;
  clock = record { checked = 9; failed = 9; waited = 9; validated = 9 };
  allowed = 9;
}

abbrev web : WebFs
web = record { opens = λ name. str_eq name "index.html"; has_index = true }

abbrev get_now : Option (String × String) → HttpRequest
get_now basic = record {
  method = "GET";
  path = "/api/v1/now";
  origin = "";
  referer = "";
  remote_addr = "192.168.1.9";
  basic = basic;
  token = "";
}

abbrev limits : Limits (ℕ × Time)
limits = main_limits small_bucket lan_config

abbrev right : Option (String × String)
right = some ("admin", "ABCDEFGHIJKLMNOPQRSTUVWX")

serve-IsAdmitted_example :
    (handle_now ≡ handle_health)
    ⊎ (IsAdmitted net
          (main_server lan_config made_secrets "8080" (λ s. s) plain_kit (some web)).auth
          (get_now right)
          limits.failures
          handle_now
        × ((not (is_state_changing "GET")
              || is_own (source_host net.parse_host (read_request net (get_now right))))
            ≡ true))
unfolding server_runs
serve-IsAdmitted_example =
    serve-IsAdmitted small_bucket net machine empty_disk saved_disk started "8080" (λ s. s)
      plain_kit (some web) (get_now right) limits handle_now machine-IsMachine refl starts refl refl

-- A page of the app, asked for with no log-in.
serve-page_example :
    let (response, limits') =
      serve small_bucket net
        (main_server lan_config made_secrets "8080" (λ s. s) plain_kit (some web))
        (record (get_now none) { path = "/history" })
        limits in
    (response.outcome ≡ page (spa_handler web "/history")) × (limits' ≡ limits)
serve-page_example =
    serve-page small_bucket net lan_config made_secrets "8080" (λ s. s) plain_kit web
      (record (get_now none) { path = "/history" }) limits refl refl
