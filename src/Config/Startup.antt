-- ===== src/Config/Startup.antt =====
-- internal/config/secrets.go and cmd/vrclog/main.go: the credentials that a start of the program makes,
-- saves and tells.
pub mod Again
pub mod Fresh
pub mod Login
use Prim.Native.Char.{Char}
use vrclog_companion.Prelude.{
  ℕ, zero, suc, ◌+◌, ℤ, String, Bool, true, false, not, ◌&&◌, ◌||◌, Option, none, some, is_empty,
  if◌then◌else◌,
}
use vrclog_companion.Config.{
  Config, Secrets, SecretsLoadStatus, secrets_fallback, Disk, load_config_from, load_secrets_from,
  saved_secrets,
}
use vrclog_companion.Config.Env.{apply_env_overrides}

abbrev pub password_length : ℕ
password_length = 24

-- `sseSecretLength`, in bytes.
abbrev pub secret_length : ℕ
secret_length = 32

abbrev pub password_charset : String
password_charset = "ABCDEFGHIJKLMNOPQRSTUVWXYZabcdefghijklmnopqrstuvwxyz0123456789"

abbrev pub default_username : String
default_username = "admin"

-- What the program is started on. `rand_int max i` is the i-th draw of `rand.Int`, which is below `max`,
-- and `rand_read` is the buffer that `rand.Read` fills; `none` is an error. `encode` is base64, and
-- `saves` and `writes` say whether secrets.json and the password's file can be written.
pub record Machine : Type 0 where
  pub env : String → String
  pub atoi : String → Option ℤ
  pub fold : String → String
  pub rand_int : ℕ → ℕ → Option ℕ
  pub rand_read : Option String
  pub encode : String → String
  pub saves : Bool
  pub writes : Bool

-- `len(s)` and `s[i]`, of ASCII.
abbrev pub text_length : String → ℕ
text_length String.[] = 0
text_length (String.◌∷◌ c s) = 1 + text_length s

abbrev pub char_at : String → ℕ → Option Char
char_at String.[] i = none
char_at (String.◌∷◌ c s) zero = some c
char_at (String.◌∷◌ c s) (suc i) = char_at s i

abbrev pub drawn : Option ℕ → Option Char
drawn none = none
drawn (some i) = char_at password_charset i

abbrev pub join_char : Option Char → Option String → Option String
join_char none rest = none
join_char (some c) none = none
join_char (some c) (some s) = some (String.◌∷◌ c s)

-- The loop of `GeneratePassword`, from place `i`.
unfoldable pub password_from : (ℕ → ℕ → Option ℕ) → ℕ → ℕ → Option String
password_from rand_int i zero = some ""
password_from rand_int i (suc n) =
    join_char (drawn (rand_int (text_length password_charset) i)) (password_from rand_int (1 + i) n)

unfoldable pub generate_password : (ℕ → ℕ → Option ℕ) → ℕ → Option String
generate_password rand_int zero = none
generate_password rand_int (suc n) = password_from rand_int 0 (suc n)

-- The secrets, `updated`, and the generated password, "" where there is none.
pub record Ensured : Type 0 where
  pub secrets : Secrets
  pub updated : Bool
  pub generated : String

abbrev pub ensure_username : Secrets → Ensured
ensure_username sec =
    if is_empty sec.basic_auth_username
    then record {
      secrets = record sec { basic_auth_username = default_username };
      updated = true;
      generated = "";
    }
    else record { secrets = sec; updated = false; generated = "" }

abbrev pub set_password : Ensured → Option String → Option Ensured
set_password e none = none
set_password e (some pw) = some (record {
  secrets = record e.secrets { basic_auth_password = pw };
  updated = true;
  generated = pw;
})

abbrev pub ensure_password : Machine → Ensured → Option Ensured
ensure_password m e =
    if is_empty e.secrets.basic_auth_password
    then set_password e (generate_password m.rand_int password_length)
    else some e

-- `EnsureLanAuth`; `none` is an error, which stops the program.
unfoldable pub ensure_lan_auth : Machine → Bool → Secrets → Option Ensured
ensure_lan_auth m lan_enabled sec =
    if not lan_enabled
    then some (record { secrets = sec; updated = false; generated = "" })
    else ensure_password m (ensure_username sec)

abbrev pub generate_sse_secret : Machine → Option String
generate_sse_secret m = elim m.rand_read [ none ↦ none | some buf ↦ some (m.encode buf) ]

abbrev pub set_sse_secret : Ensured → Option String → Option Ensured
set_sse_secret e none = none
set_sse_secret e (some secret) =
    some (record e { secrets = record e.secrets { sse_hmac_secret = secret }; updated = true })

-- `EnsureSSESecret`, and `updated || sseUpdated`.
unfoldable pub ensure_sse_secret : Machine → Ensured → Option Ensured
ensure_sse_secret m e =
    if not (is_empty e.secrets.sse_hmac_secret)
    then some e
    else set_sse_secret e (generate_sse_secret m)

-- What the log says of the credentials: the path of the file they are in, the user name and the
-- password themselves, or that they are not saved.
pub data Notice : Type 0 where
  silent not_saved : Notice
  in_file : String → String → Notice
  in_log : String → String → Notice

abbrev pub notice_of : Machine → Ensured → Notice
notice_of m e =
    if is_empty e.generated
    then silent
    else if m.writes
    then in_file e.secrets.basic_auth_username e.generated
    else in_log e.secrets.basic_auth_username e.generated

pub record Startup : Type 0 where
  pub cfg : Config
  pub secrets : Secrets
  pub notice : Notice

abbrev pub is_fallback : SecretsLoadStatus → Bool
is_fallback secrets_fallback = true
is_fallback _ = false

-- After both are ensured: the save of the secrets, which stops the program where it fails.
unfoldable pub save_ensured :
    Machine → Disk → Config → SecretsLoadStatus → Ensured → Disk × Option Startup
save_ensured m disk cfg status e =
    if e.updated && not (is_fallback status)
    then if m.saves
      then (
        record disk { secrets_file = saved_secrets e.secrets },
        some (record { cfg = cfg; secrets = e.secrets; notice = notice_of m e }),
      )
      else (disk, none)
    else (
      disk,
      some (record {
        cfg = cfg;
        secrets = e.secrets;
        notice = if e.updated then not_saved else silent;
      }),
    )

abbrev pub save_if_ensured :
    Machine → Disk → Config → SecretsLoadStatus → Option Ensured → Disk × Option Startup
save_if_ensured m disk cfg status none = (disk, none)
save_if_ensured m disk cfg status (some e) = save_ensured m disk cfg status e

abbrev pub ensure_sse_after : Machine → Option Ensured → Option Ensured
ensure_sse_after m none = none
ensure_sse_after m (some e) = ensure_sse_secret m e

-- `LoadConfig` and `ApplyEnvOverrides`.
abbrev pub config_of : Machine → Disk → Config
config_of m disk = apply_env_overrides m.env m.atoi m.fold (load_config_from disk.config_file)

-- The steps 2 and 3 of `main`; `none` is a fatal error.
unfoldable pub start : Machine → Disk → Disk × Option Startup
start m disk =
    let cfg = config_of m disk in
    let (sec, status) = load_secrets_from disk.secrets_file in
    save_if_ensured m disk cfg status (ensure_sse_after m (ensure_lan_auth m cfg.lan_enabled sec))
