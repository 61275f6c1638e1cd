-- ===== src/Config/Startup/Again.antt =====
-- The next start, by cmd/vrclog/main.go: it finds what the first has saved.
use vrclog_companion.Prelude.{
  ℤ, pos, negsuc, int_eq, ==_iff, ◌≡◌, refl, sym, ap, ◌∙◌, true, false, some, is_empty, arith,
  Bool-cases, ◌⊎◌, inl, inr,
}
use vrclog_companion.Config.{
  current_schema_version, Secrets, default_secrets, SecretsLoadStatus, secrets_loaded, File,
  missing, unreadable, corrupt, contents, Disk, load_secrets_from, saved_secrets,
}
use vrclog_companion.Config.Startup.{
  Machine, silent, Startup, is_fallback, save_ensured, config_of, start,
}
use vrclog_companion.Config.Startup.Fresh.{
  has_login, IsMachine, IsReady, ensure-IsReady, ensure_complete,
}
use vrclog_companion.Config.Startup.Login.{IsStarted, start-IsStarted}

-- What was loaded, where it was not made up for a file that cannot be read.
abbrev IsLoaded : File Secrets → Type 0
IsLoaded file =
    ((load_secrets_from file).0.schema_version ≡ current_schema_version)
    × ((load_secrets_from file ≡ ((load_secrets_from file).0, secrets_loaded))
        ⊎ ((load_secrets_from file).0 ≡ default_secrets))

int_eq-eq : (a b : ℤ) → int_eq a b ≡ true → a ≡ b
int_eq-eq (pos a) (pos b) h = ap pos ((==_iff a b).0 h)
int_eq-eq (negsuc a) (negsuc b) h = ap negsuc ((==_iff a b).0 h)
int_eq-eq (pos a) (negsuc b) h = ground (arith, h)
int_eq-eq (negsuc a) (pos b) h = ground (arith, h)

load_secrets_from-IsLoaded :
    (file : File Secrets) → is_fallback (load_secrets_from file).1 ≡ false → IsLoaded file
unfolding load_secrets_from
load_secrets_from-IsLoaded missing h = (refl, inr refl)
load_secrets_from-IsLoaded unreadable h = ground (arith, h)
load_secrets_from-IsLoaded corrupt h = ground (arith, h)
load_secrets_from-IsLoaded (contents sec) h =
    elim (Bool-cases (int_eq sec.schema_version current_schema_version)) [
      | inl same ↦ rw same (int_eq-eq _ _ same, inl refl)
      | inr other ↦ ground (arith, other, h)
    ]

load-saved_secrets :
    (sec : Secrets)
    → sec.schema_version ≡ current_schema_version
    → load_secrets_from (saved_secrets sec) ≡ (sec, secrets_loaded)
unfolding load_secrets_from
load-saved_secrets sec h = ap (λ v. (record sec { schema_version = v }, secrets_loaded)) (sym h)

abbrev with_status : Secrets → Secrets × SecretsLoadStatus
with_status sec = (sec, secrets_loaded)

-- What the next start loads.
IsStarted-loaded :
    (m : Machine) (disk disk' : Disk) (s : Startup) (x : IsStarted m disk disk' s)
    → IsReady (config_of m disk).lan_enabled (load_secrets_from disk.secrets_file).0 x.e
    → IsLoaded disk.secrets_file
    → is_fallback (load_secrets_from disk.secrets_file).1 ≡ false
    → load_secrets_from disk'.secrets_file ≡ (s.secrets, secrets_loaded)
IsStarted-loaded m disk disk' s x r (schema, loaded) readable =
    let from_file = ap load_secrets_from x.saved.file in
    let to_s = ap with_status (sym x.saved.secrets) in
    elim (Bool-cases x.e.updated) [
      | inl updated ↦
          let saves : load_secrets_from disk'.secrets_file
              ≡ load_secrets_from (saved_secrets x.e.secrets) =
            from_file ∙ rw (updated, readable) refl in
          saves ∙ load-saved_secrets x.e.secrets (r.ensured.schema ∙ schema) ∙ to_s
      | inr kept ↦
          let same = r.ensured.kept kept in
          elim loaded [
            | inl there ↦
                let keeps : load_secrets_from disk'.secrets_file
                    ≡ load_secrets_from disk.secrets_file =
                  from_file ∙ rw kept refl in
                keeps ∙ there ∙ ap with_status (sym same) ∙ to_s
            | inr fresh ↦
                let none_made : is_empty x.e.secrets.sse_hmac_secret ≡ true =
                  ap (λ sec. is_empty (Secrets.sse_hmac_secret sec)) (same ∙ fresh) in
                ground (arith, none_made, r.secret)
          ]
    ]

-- With a random source that fills its 32 bytes, and base64 as documented: if the secrets could be read,
-- or were not there, then every later start with the same settings has
-- the same log-in and secret, writes nothing and tells nothing, whatever it would draw.
pub start-start :
    (m m' : Machine) (disk disk' : Disk) (s : Startup)
    → IsMachine m
    → is_fallback (load_secrets_from disk.secrets_file).1 ≡ false
    → start m disk ≡ (disk', some s)
    → config_of m' disk' ≡ config_of m disk
    → start m' disk' ≡ (disk', some (record s { notice = silent }))
unfolding start save_ensured
start-start m m' disk disk' s encoded readable h same =
    let x = start-IsStarted m disk disk' s h in
    let r =
      ensure-IsReady m (config_of m disk).lan_enabled (load_secrets_from disk.secrets_file).0 x.e
        encoded x.ensured in
    let loaded =
      IsStarted-loaded m disk disk' s x r (load_secrets_from-IsLoaded disk.secrets_file readable)
        readable in
    let complete =
      ensure_complete m' (config_of m disk).lan_enabled s.secrets
        (ap (has_login _) x.saved.secrets ∙ r.ensured.login)
        (ap (λ sec. is_empty (Secrets.sse_hmac_secret sec)) x.saved.secrets ∙ r.secret) in
    rw (loaded, same, complete, x.config) refl
