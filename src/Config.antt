-- ===== src/Config.antt =====
-- internal/config/config.go, internal/config/secrets.go and internal/app/config.go: the settings on
-- disk, and the use case that reads and updates them.
pub mod Update
pub mod Env
pub mod Startup
use text.Mathlib.Text.{starts_with}
use vrclog_companion.Prelude.{
  ℕ, ℤ, pos, at_least, above, int_eq, String, Bool, true, false, not, ◌&&◌, ◌||◌, Option, none,
  some, List, [], ◌∷◌, is_empty, if◌then◌else◌,
}

abbrev pub current_schema_version : ℤ
current_schema_version = pos 1

pub record Config : Type 0 where
  pub schema_version : ℤ
  pub port : ℤ
  pub lan_enabled : Bool
  pub log_path : String
  pub discord_batch_sec : ℤ
  pub auto_start_enabled : Bool
  pub notify_on_join : Bool
  pub notify_on_leave : Bool
  pub notify_on_world_join : Bool
  pub cors_allowed_origins : List String

abbrev pub default_config : Config
default_config = record {
  schema_version = current_schema_version;
  port = pos 8080;
  lan_enabled = false;
  log_path = "";
  discord_batch_sec = pos 3;
  auto_start_enabled = false;
  notify_on_join = true;
  notify_on_leave = true;
  notify_on_world_join = true;
  cors_allowed_origins = [];
}

-- A `Secret` is its value.
pub record Secrets : Type 0 where
  pub schema_version : ℤ
  pub discord_webhook_url : String
  pub basic_auth_username : String
  pub basic_auth_password : String
  pub sse_hmac_secret : String

abbrev pub default_secrets : Secrets
default_secrets = record {
  schema_version = current_schema_version;
  discord_webhook_url = "";
  basic_auth_username = "";
  basic_auth_password = "";
  sse_hmac_secret = "";
}

-- What reading and decoding a file gives. `contents` is what encoding/json decodes over the defaults.
pub data File {ℓ} (A : Type ℓ) : Type ℓ where
  missing unreadable corrupt : File A
  contents : A → File A

unfoldable pub normalize_config : Config → Config
normalize_config cfg = record cfg {
  schema_version = current_schema_version;
  port =
      if not (at_least 1 cfg.port) || above 65535 cfg.port then default_config.port else cfg.port;
  discord_batch_sec =
      if not (at_least 0 cfg.discord_batch_sec)
      then default_config.discord_batch_sec
      else cfg.discord_batch_sec;
}

-- `LoadConfigFrom`, whose error is always nil.
unfoldable pub load_config_from : File Config → Config
load_config_from missing = default_config
load_config_from unreadable = default_config
load_config_from corrupt = default_config
load_config_from (contents cfg) =
    if int_eq cfg.schema_version current_schema_version
    then normalize_config cfg
    else default_config

pub data SecretsLoadStatus : Type 0 where
  secrets_loaded secrets_missing secrets_fallback : SecretsLoadStatus

-- `LoadSecretsFrom`; its error is set exactly where the status is `secrets_fallback`.
unfoldable pub load_secrets_from : File Secrets → Secrets × SecretsLoadStatus
load_secrets_from missing = (default_secrets, secrets_missing)
load_secrets_from unreadable = (default_secrets, secrets_fallback)
load_secrets_from corrupt = (default_secrets, secrets_fallback)
load_secrets_from (contents sec) =
    if int_eq sec.schema_version current_schema_version
    then (sec, secrets_loaded)
    else (default_secrets, secrets_fallback)

-- What `SaveConfigTo` and `SaveSecretsTo` write.
abbrev pub saved_config : Config → File Config
saved_config cfg = contents (record cfg { schema_version = current_schema_version })

abbrev pub saved_secrets : Secrets → File Secrets
saved_secrets sec = contents (record sec { schema_version = current_schema_version })

pub record ConfigResponse : Type 0 where
  pub port : ℤ
  pub lan_enabled : Bool
  pub discord_batch_sec : ℤ
  pub notify_on_join : Bool
  pub notify_on_leave : Bool
  pub notify_on_world_join : Bool
  pub discord_webhook_configured : Bool
  pub log_path : String
  pub basic_auth_username : String
  pub basic_auth_configured : Bool

pub record ConfigUpdateRequest : Type 0 where
  pub port : Option ℤ
  pub lan_enabled : Option Bool
  pub discord_batch_sec : Option ℤ
  pub notify_on_join : Option Bool
  pub notify_on_leave : Option Bool
  pub notify_on_world_join : Option Bool
  pub discord_webhook_url : Option String
  pub log_path : Option String
  pub basic_auth_password : Option String

pub record ConfigUpdateResponse : Type 0 where
  pub success : Bool
  pub restart_required : Bool
  pub new_port : ℤ

-- The two files of `ConfigService`.
pub record Disk : Type 0 where
  pub config_file : File Config
  pub secrets_file : File Secrets

unfoldable pub get_config : Disk → ConfigResponse
unfolding load_config_from load_secrets_from normalize_config
get_config disk =
    let cfg = load_config_from disk.config_file in
    let sec = (load_secrets_from disk.secrets_file).0 in
    record {
      port = cfg.port;
      lan_enabled = cfg.lan_enabled;
      discord_batch_sec = cfg.discord_batch_sec;
      notify_on_join = cfg.notify_on_join;
      notify_on_leave = cfg.notify_on_leave;
      notify_on_world_join = cfg.notify_on_world_join;
      discord_webhook_configured = not (is_empty sec.discord_webhook_url);
      log_path = cfg.log_path;
      basic_auth_username = sec.basic_auth_username;
      basic_auth_configured = not (is_empty sec.basic_auth_password);
    }

pub data UpdateError : Type 0 where
  load_secrets bad_port bad_batch_sec bad_webhook_url save_config save_secrets : UpdateError

pub data Result {ℓ} (A : Type ℓ) : Type ℓ where
  err : UpdateError → Result A
  ok : A → Result A

-- What follows an early return is not run.
module _ {ℓ κ} {A : Type ℓ} {B : Type κ} where
  infixl 5 ◌>>=◌
  abbrev pub ◌>>=◌ : (outcome : Result A) (rest : A → Result B) → Result B
  err reason >>= rest = err reason
  ok value >>= rest = rest value

abbrev pub is_some {ℓ} : {A : Type ℓ} → Option A → Bool
is_some none = false
is_some (some a) = true

abbrev pub given_or {ℓ} : {A : Type ℓ} → Option A → A → A
given_or none a = a
given_or (some b) a = b

unfoldable pub is_valid_discord_webhook_url : String → Bool
is_valid_discord_webhook_url url =
    starts_with url "https://discord.com/api/webhooks/"
    || starts_with url "https://discordapp.com/api/webhooks/"

unfoldable pub apply_port : Option ℤ → Config → Result Config
apply_port none cfg = ok cfg
apply_port (some p) cfg =
    if not (at_least 1 p) || above 65535 p then err bad_port else ok (record cfg { port = p })

unfoldable pub apply_batch_sec : Option ℤ → Config → Result Config
apply_batch_sec none cfg = ok cfg
apply_batch_sec (some n) cfg =
    if not (at_least 0 n) then err bad_batch_sec else ok (record cfg { discord_batch_sec = n })

-- The updates of the config, in the order of the code.
unfoldable pub apply_config : ConfigUpdateRequest → Config → Result Config
apply_config req cfg = do
  c ← apply_port req.port cfg
  d ←
      apply_batch_sec req.discord_batch_sec
        (record c { lan_enabled = given_or req.lan_enabled c.lan_enabled })
  ok (record d {
    notify_on_join = given_or req.notify_on_join d.notify_on_join;
    notify_on_leave = given_or req.notify_on_leave d.notify_on_leave;
    notify_on_world_join = given_or req.notify_on_world_join d.notify_on_world_join;
    log_path = given_or req.log_path d.log_path;
  })

-- `configChanged`: some field of the config is given.
abbrev pub config_changed : ConfigUpdateRequest → Bool
config_changed req =
    is_some req.port
    || is_some req.lan_enabled
    || is_some req.discord_batch_sec
    || is_some req.notify_on_join
    || is_some req.notify_on_leave
    || is_some req.notify_on_world_join
    || is_some req.log_path

unfoldable pub apply_webhook : Option String → Secrets → Result Secrets
apply_webhook none sec = ok sec
apply_webhook (some url) sec =
    if not (is_empty url) && not (is_valid_discord_webhook_url url)
    then err bad_webhook_url
    else ok (record sec { discord_webhook_url = url })

unfoldable pub apply_password : Option String → Secrets → Secrets
apply_password none sec = sec
apply_password (some pw) sec = if is_empty pw then sec else record sec {
  basic_auth_password = pw;
  basic_auth_username =
      if is_empty sec.basic_auth_username then "admin" else sec.basic_auth_username;
}

abbrev pub password_given : Option String → Bool
password_given none = false
password_given (some pw) = not (is_empty pw)

-- `secretsChanged`.
abbrev pub secrets_changed : ConfigUpdateRequest → Bool
secrets_changed req = is_some req.discord_webhook_url || password_given req.basic_auth_password

unfoldable pub apply_secrets : ConfigUpdateRequest → Secrets → Result Secrets
apply_secrets req sec = do
  s ← apply_webhook req.discord_webhook_url sec
  ok (apply_password req.basic_auth_password s)

-- The part of `UpdateConfig` that writes: `config_writes` and `secrets_writes` say whether the
-- atomic write of each file succeeds.
unfoldable pub save :
    Bool
    → Bool
    → ConfigUpdateRequest
    → ℤ
    → Config
    → Secrets
    → Disk
    → Disk × Result ConfigUpdateResponse
save config_writes secrets_writes req original_port cfg sec disk =
    let disk' : Disk =
      if config_changed req then record disk { config_file = saved_config cfg } else disk in
    let disk'' : Disk =
      if secrets_changed req then record disk' { secrets_file = saved_secrets sec } else disk' in
    if config_changed req && not config_writes
    then (disk, err save_config)
    else if secrets_changed req && not secrets_writes
    then (disk', err save_secrets)
    else (
      disk'',
      ok (record {
        success = true;
        restart_required = config_changed req || secrets_changed req;
        new_port = if int_eq cfg.port original_port then pos 0 else cfg.port;
      }),
    )

-- After the requests are applied: the config's error comes first.
abbrev pub save_applied :
    Bool
    → Bool
    → ConfigUpdateRequest
    → ℤ
    → Result Config
    → Result Secrets
    → Disk
    → Disk × Result ConfigUpdateResponse
save_applied config_writes secrets_writes req original_port (err e) sec disk = (disk, err e)
save_applied config_writes secrets_writes req original_port (ok cfg) (err e) disk = (disk, err e)
save_applied config_writes secrets_writes req original_port (ok cfg) (ok sec) disk =
    save config_writes secrets_writes req original_port cfg sec disk

-- After the files are loaded.
abbrev pub update_loaded :
    Bool
    → Bool
    → ConfigUpdateRequest
    → Config
    → Secrets × SecretsLoadStatus
    → Disk
    → Disk × Result ConfigUpdateResponse
update_loaded config_writes secrets_writes req cfg (sec, secrets_fallback) disk =
    (disk, err load_secrets)
update_loaded config_writes secrets_writes req cfg (sec, _) disk =
    save_applied config_writes secrets_writes req cfg.port (apply_config req cfg)
      (apply_secrets req sec) disk

-- `UpdateConfig`.
unfoldable pub update_config :
    Bool → Bool → ConfigUpdateRequest → Disk → Disk × Result ConfigUpdateResponse
update_config config_writes secrets_writes req disk =
    update_loaded config_writes secrets_writes req (load_config_from disk.config_file)
      (load_secrets_from disk.secrets_file) disk
