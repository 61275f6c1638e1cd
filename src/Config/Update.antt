-- ===== src/Config/Update.antt =====
-- `UpdateConfig` of internal/app/config.go: what it keeps, and what it leaves alone when it fails.
use vrclog_companion.Prelude.{
  ℤ, pos, at_least, above, int_eq, ◌≡◌, refl, Bool, true, false, Option, none, some, arith,
  if◌then◌else◌,
}
use vrclog_companion.Config.{
  Config, Secrets, File, missing, unreadable, corrupt, contents, current_schema_version,
  normalize_config, load_config_from, load_secrets_from, SecretsLoadStatus, secrets_loaded,
  secrets_missing, secrets_fallback, saved_config, ConfigUpdateRequest, ConfigUpdateResponse, Disk,
  UpdateError, save_secrets, Result, ok, err, ◌>>=◌, given_or, apply_port, apply_batch_sec,
  apply_config, apply_secrets, save, config_changed, secrets_changed, save_applied, update_loaded,
  update_config,
}

pub record IsValid (cfg : Config) : Type 0 where
  pub schema : cfg.schema_version ≡ current_schema_version
  pub port_low : at_least 1 cfg.port ≡ true
  pub port_high : above 65535 cfg.port ≡ false
  pub batch : at_least 0 cfg.discord_batch_sec ≡ true

-- Whatever the file holds, the config that is loaded is valid: the schema version is the current one,
-- the port is between 1 and 65535, and the batch interval is not negative.
pub load_config_from-IsValid : (file : File Config) → IsValid (load_config_from file)
unfolding load_config_from normalize_config
load_config_from-IsValid missing = ground arith
load_config_from-IsValid unreadable = ground arith
load_config_from-IsValid corrupt = ground arith
load_config_from-IsValid (contents cfg) = ground arith

-- A valid config that is written is loaded as it was.
pub load-saved : (cfg : Config) → IsValid cfg → load_config_from (saved_config cfg) ≡ cfg
unfolding load_config_from normalize_config
load-saved cfg v = ground arith

apply_port-IsValid :
    (o : Option ℤ) (cfg : Config) {c : Config} → IsValid cfg → apply_port o cfg ≡ ok c → IsValid c
unfolding apply_port
apply_port-IsValid none cfg v e = ground arith
apply_port-IsValid (some p) cfg v e = ground arith

apply_batch_sec-IsValid :
    (o : Option ℤ) (cfg : Config) {c : Config}
    → IsValid cfg
    → apply_batch_sec o cfg ≡ ok c
    → IsValid c
unfolding apply_batch_sec
apply_batch_sec-IsValid none cfg v e = ground arith
apply_batch_sec-IsValid (some n) cfg v e = ground arith

-- What follows an early return has run where the whole succeeds.
rest_runs :
    (first : Result Config) (rest : Config → Result Config) {last : Config}
    → first >>= rest ≡ ok last
    → (cfg : Config) × (rest cfg ≡ ok last) × (first ≡ ok cfg)
rest_runs (err reason) rest e = cc
rest_runs (ok cfg) rest e = (cfg, e, refl)

-- The fields that a config's validity reads.
same-IsValid :
    (c d : Config)
    → IsValid c
    → d.schema_version ≡ c.schema_version
    → d.port ≡ c.port
    → d.discord_batch_sec ≡ c.discord_batch_sec
    → IsValid d
same-IsValid c d v s p b = ground arith

pub apply_config-IsValid :
    (req : ConfigUpdateRequest) (cfg : Config) {c : Config}
    → IsValid cfg
    → apply_config req cfg ≡ ok c
    → IsValid c
unfolding apply_config
apply_config-IsValid req cfg {c} v e =
    let (c1, r1, e1) = rest_runs (apply_port req.port cfg) _ e in
    let v1 : IsValid c1 = apply_port-IsValid req.port cfg v e1 in
    let c2 : Config = record c1 { lan_enabled = given_or req.lan_enabled c1.lan_enabled } in
    let (c3, r3, e3) = rest_runs (apply_batch_sec req.discord_batch_sec c2) _ r1 in
    let v3 : IsValid c3 =
      apply_batch_sec-IsValid req.discord_batch_sec c2 (same-IsValid c1 c2 v1 refl refl refl) e3 in
    ground (arith, same-IsValid c3 c v3)

-- A request that gives no field of the config leaves it as it is.
apply_config_unchanged :
    (req : ConfigUpdateRequest) (cfg : Config)
    → config_changed req ≡ false
    → apply_config req cfg ≡ ok cfg
unfolding apply_config apply_port apply_batch_sec
apply_config_unchanged req cfg h = ground arith

-- What an update that succeeds has done.
pub record IsUpdated (req : ConfigUpdateRequest) (before after : Disk) (resp : ConfigUpdateResponse)
    : Type 0 where
  pub config :
      apply_config req (load_config_from before.config_file)
      ≡ ok (load_config_from after.config_file)
  pub secrets : secrets_changed req ≡ false → after.secrets_file ≡ before.secrets_file
  pub port : resp.new_port ≡ (
      if int_eq (load_config_from after.config_file).port (load_config_from before.config_file).port
      then pos 0
      else (load_config_from after.config_file).port)

save-IsUpdated :
    (cw sw : Bool) (req : ConfigUpdateRequest) (cfg : Config) (sec : Secrets) (disk : Disk)
    {after : Disk} {resp : ConfigUpdateResponse}
    → apply_config req (load_config_from disk.config_file) ≡ ok cfg
    → save cw sw req (load_config_from disk.config_file).port cfg sec disk ≡ (after, ok resp)
    → IsUpdated req disk after resp
unfolding save
save-IsUpdated cw sw req cfg sec disk {after} {resp} a e =
    let before = load_config_from disk.config_file in
    let v = apply_config-IsValid req before (load_config_from-IsValid disk.config_file) a in
    ground (arith, load-saved cfg v, apply_config_unchanged req before)

save_applied-IsUpdated :
    (cw sw : Bool) (req : ConfigUpdateRequest) (c : Result Config) (t : Result Secrets)
    (disk : Disk) {after : Disk} {resp : ConfigUpdateResponse}
    → apply_config req (load_config_from disk.config_file) ≡ c
    → save_applied cw sw req (load_config_from disk.config_file).port c t disk ≡ (after, ok resp)
    → IsUpdated req disk after resp
save_applied-IsUpdated cw sw req (err x) t disk a e = absurd (ground arith)
save_applied-IsUpdated cw sw req (ok cfg) (err x) disk a e = absurd (ground arith)
save_applied-IsUpdated cw sw req (ok cfg) (ok sec) disk a e =
    save-IsUpdated cw sw req cfg sec disk a e

-- An update that succeeds: the config that is loaded afterwards is the loaded one with the request
-- applied, though the file may have held what was normalised; the secrets file is untouched unless
-- the request gives a webhook or a password that is not empty; and a new port is reported exactly
-- when the port has changed.
pub update_config-IsUpdated :
    (cw sw : Bool) (req : ConfigUpdateRequest) (disk : Disk) {after : Disk}
    {resp : ConfigUpdateResponse}
    → update_config cw sw req disk ≡ (after, ok resp)
    → IsUpdated req disk after resp
unfolding update_config
update_config-IsUpdated cw sw req disk {after} {resp} e = go (load_secrets_from disk.secrets_file) e
  where
    go :
        (s : Secrets × SecretsLoadStatus)
        → update_loaded cw sw req (load_config_from disk.config_file) s disk ≡ (after, ok resp)
        → IsUpdated req disk after resp
    go (sec, secrets_fallback) e = absurd (ground arith)
    go (sec, secrets_loaded) e =
        save_applied-IsUpdated cw sw req _ (apply_secrets req sec) disk refl e
    go (sec, secrets_missing) e =
        save_applied-IsUpdated cw sw req _ (apply_secrets req sec) disk refl e

-- The files after an update that fails.
abbrev pub IsKept : Disk → Disk → UpdateError → Type 0
IsKept before after save_secrets = after.secrets_file ≡ before.secrets_file
IsKept before after _ = after ≡ before

save-IsKept :
    (cw sw : Bool) (req : ConfigUpdateRequest) (p : ℤ) (c : Result Config) (t : Result Secrets)
    (disk : Disk) {after : Disk} (x : UpdateError)
    → save_applied cw sw req p c t disk ≡ (after, err x)
    → IsKept disk after x
unfolding save
save-IsKept cw sw req p (err y) t disk x e = ground arith
save-IsKept cw sw req p (ok cfg) (err y) disk x e = ground arith
save-IsKept cw sw req p (ok cfg) (ok sec) disk x e = ground arith

-- An update that fails leaves both files as they were, except that when only the secrets could not
-- be written the config file may have changed, and the secrets file has not.
pub update_config-IsKept :
    (cw sw : Bool) (req : ConfigUpdateRequest) (disk : Disk) {after : Disk} (x : UpdateError)
    → update_config cw sw req disk ≡ (after, err x)
    → IsKept disk after x
unfolding update_config
update_config-IsKept cw sw req disk {after} x e = go (load_secrets_from disk.secrets_file) e
  where
    go :
        (s : Secrets × SecretsLoadStatus)
        → update_loaded cw sw req (load_config_from disk.config_file) s disk ≡ (after, err x)
        → IsKept disk after x
    go (sec, secrets_fallback) e = ground arith
    go (sec, secrets_loaded) e = save-IsKept cw sw req _ _ (apply_secrets req sec) disk x e
    go (sec, secrets_missing) e = save-IsKept cw sw req _ _ (apply_secrets req sec) disk x e
