-- ===== src/Config/Startup/Login.antt =====
-- What the start of cmd/vrclog/main.go means for the log-in: it is there, it stays, and it is told.
use vrclog_companion.Prelude.{
  ◌≡◌, refl, sym, ap, ◌∙◌, true, false, not, ◌&&◌, Option, none, some, is_empty, if◌then◌else◌,
  Bool-cases, Option-cases, inl, inr,
}
use mathlib.Core.Option.{some-injective, none-ne-some}
use vrclog_companion.Config.{
  Config, Secrets, SecretsLoadStatus, Disk, load_secrets_from, saved_secrets,
}
use vrclog_companion.Config.Startup.{
  Machine, Ensured, text_length, password_length, ensure_lan_auth, ensure_sse_after, Notice,
  in_file, in_log, not_saved, silent, notice_of, Startup, is_fallback, save_ensured, config_of,
  start,
}
use vrclog_companion.Config.Startup.Fresh.{
  has_login, IsMachine, ensure-IsEnsured, ensure-IsReady, nonempty_of_length,
}

-- A start with secrets that are ensured.
pub record IsSaved (m : Machine) (disk disk' : Disk) (status : SecretsLoadStatus) (e : Ensured)
    (s : Startup) : Type 0 where
  pub secrets : s.secrets ≡ e.secrets
  pub file : disk'.secrets_file ≡ (
      if e.updated && not (is_fallback status) then saved_secrets e.secrets else disk.secrets_file)
  pub notice :
      s.notice
      ≡ (if not e.updated then silent else if is_fallback status then not_saved else notice_of m e)

parts :
    {r : Disk × Option Startup} {d' : Disk} {s : Startup}
    → r ≡ (d', some s)
    → (r.0 ≡ d') × (r.1 ≡ some s)
parts h = (ap (λ p. p.0) h, ap (λ p. p.1) h)

outcome-IsSaved :
    (m : Machine) (disk disk' d : Disk) (status : SecretsLoadStatus) (e : Ensured) (cfg : Config)
    (s : Startup) (n : Notice)
    → ◌≡◌ {A = Disk × Option Startup}
        (d, some (record { cfg = cfg; secrets = e.secrets; notice = n }))
        (disk', some s)
    → d.secrets_file ≡ (
        if e.updated && not (is_fallback status)
        then saved_secrets e.secrets
        else disk.secrets_file)
    → n
      ≡ (if not e.updated then silent else if is_fallback status then not_saved else notice_of m e)
    → (s.cfg ≡ cfg) × (disk'.config_file ≡ d.config_file) × IsSaved m disk disk' status e s
outcome-IsSaved m disk disk' d status e cfg s n h f k =
    let (same, made) = parts h in
    let x = some-injective _ _ made in
    (
      sym (ap Startup.cfg x),
      sym (ap Disk.config_file same),
      record {
        secrets = sym (ap Startup.secrets x);
        file = sym (ap Disk.secrets_file same) ∙ f;
        notice = sym (ap Startup.notice x) ∙ k;
      },
    )

save_ensured-IsSaved :
    (m : Machine) (disk disk' : Disk) (cfg : Config) (status : SecretsLoadStatus) (e : Ensured)
    (s : Startup)
    → save_ensured m disk cfg status e ≡ (disk', some s)
    → (s.cfg ≡ cfg) × (disk'.config_file ≡ disk.config_file) × IsSaved m disk disk' status e s
unfolding save_ensured
save_ensured-IsSaved m disk disk' cfg status e s h = elim (Bool-cases e.updated) [
  | inr u ↦
      outcome-IsSaved m disk disk' disk status e cfg s silent (sym (rw u refl) ∙ h) (rw u refl)
        (rw u refl)
  | inl u ↦ elim (Bool-cases (is_fallback status)) [
    | inl f ↦
        outcome-IsSaved m disk disk' disk status e cfg s not_saved (sym (rw (u, f) refl) ∙ h)
          (rw (u, f) refl) (rw (u, f) refl)
    | inr f ↦ elim (Bool-cases m.saves) [
      | inl w ↦
          outcome-IsSaved m disk disk' (record disk { secrets_file = saved_secrets e.secrets })
            status e cfg s (notice_of m e) (sym (rw (u, f, w) refl) ∙ h) (rw (u, f) refl)
            (rw (u, f) refl)
      | inr w ↦ absurd (none-ne-some s ((parts {r = (disk, none)} (sym (rw (u, f, w) refl) ∙ h)).1))
    ]
  ]
]

-- What a start that goes on has loaded, ensured and saved.
pub record IsStarted (m : Machine) (disk disk' : Disk) (s : Startup) : Type 0 where
  pub e : Ensured
  pub config : s.cfg ≡ config_of m disk
  pub same_config : disk'.config_file ≡ disk.config_file
  pub saved : IsSaved m disk disk' (load_secrets_from disk.secrets_file).1 e s
  pub ensured :
      ensure_sse_after m
        (ensure_lan_auth m (config_of m disk).lan_enabled (load_secrets_from disk.secrets_file).0)
      ≡ some e

pub start-IsStarted :
    (m : Machine) (disk disk' : Disk) (s : Startup)
    → start m disk ≡ (disk', some s)
    → IsStarted m disk disk' s
unfolding start
start-IsStarted m disk disk' s h =
    let cfg = config_of m disk in
    let sec = (load_secrets_from disk.secrets_file).0 in
    let status = (load_secrets_from disk.secrets_file).1 in
    elim (Option-cases (ensure_sse_after m (ensure_lan_auth m cfg.lan_enabled sec))) [
      | inl failed ↦
          absurd (none-ne-some s ((parts {r = (disk, none)} (sym (rw failed refl) ∙ h)).1))
      | inr (e, ensured) ↦
          let (config, same_config, saved) =
            save_ensured-IsSaved m disk disk' cfg status e s (sym (rw ensured refl) ∙ h) in
          record {
            e = e;
            config = config;
            same_config = same_config;
            saved = saved;
            ensured = ensured;
          }
    ]

-- Whatever is on disk and in the environment, a start that does not stop has a secret for tokens, and,
-- where LAN mode is on, a user name and a password that are not empty, with a random source that fills
-- its 32 bytes and base64 as documented.
pub start-has_login :
    (m : Machine) (disk disk' : Disk) (s : Startup)
    → IsMachine m
    → start m disk ≡ (disk', some s)
    → (has_login s.cfg.lan_enabled s.secrets && not (is_empty s.secrets.sse_hmac_secret)) ≡ true
start-has_login m disk disk' s encoded h =
    let x = start-IsStarted m disk disk' s h in
    let r =
      ensure-IsReady m (config_of m disk).lan_enabled (load_secrets_from disk.secrets_file).0 x.e
        encoded x.ensured in
    rw (x.config, x.saved.secrets, r.ensured.login, r.secret) refl

-- In LAN mode, where no password was loaded, the start makes one of 24 characters, and the log tells
-- it: it says which file has it, or gives it where that file cannot be written; but where the secrets
-- could not be read it says only that nothing is saved.
pub start-notice :
    (m : Machine) (disk disk' : Disk) (s : Startup)
    → start m disk ≡ (disk', some s)
    → s.cfg.lan_enabled ≡ true
    → is_empty (load_secrets_from disk.secrets_file).0.basic_auth_password ≡ true
    → (text_length s.secrets.basic_auth_password ≡ password_length)
      × (s.notice ≡ (
          if is_fallback (load_secrets_from disk.secrets_file).1
          then not_saved
          else if m.writes
          then in_file s.secrets.basic_auth_username s.secrets.basic_auth_password
          else in_log s.secrets.basic_auth_username s.secrets.basic_auth_password))
start-notice m disk disk' s h lan absent =
    let x = start-IsStarted m disk disk' s h in
    let r =
      ensure-IsEnsured m (config_of m disk).lan_enabled (load_secrets_from disk.secrets_file).0 x.e
        x.ensured in
    let (updated, same, long) = r.told (sym (ap Config.lan_enabled x.config) ∙ lan) absent in
    let filled : is_empty x.e.generated ≡ false = nonempty_of_length x.e.generated 23 long in
    (
      ap (λ sec. text_length (Secrets.basic_auth_password sec)) x.saved.secrets
          ∙ ap text_length (sym same)
          ∙ long,
      x.saved.notice ∙ rw (updated, filled, same, x.saved.secrets) refl,
    )
