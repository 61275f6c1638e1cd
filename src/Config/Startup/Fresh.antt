-- ===== src/Config/Startup/Fresh.antt =====
-- What a start leaves: credentials for LAN mode, and files that the next start finds complete.
use Prim.Native.Char.{Char}
use Prim.Derive.{subst}
use mathlib.Core.Option.{some-injective, none-ne-some}
use vrclog_companion.Prelude.{
  ℕ, zero, suc, ◌+◌, ◌≡◌, refl, sym, ap, ◌∙◌, String, Bool, true, false, not, ◌&&◌, ◌||◌, Option,
  none, some, is_empty, arith, Bool-cases, Option-cases, inl, inr,
}
use vrclog_companion.Config.{Secrets}
use vrclog_companion.Config.Startup.{
  Machine, password_length, secret_length, text_length, drawn, join_char, password_from,
  generate_password, Ensured, ensure_username, set_password, ensure_lan_auth, ensure_sse_secret,
  set_sse_secret, ensure_sse_after,
}

-- The log-in of LAN mode, and the secret of tokens, are there.
abbrev pub has_login : Bool → Secrets → Bool
has_login lan_enabled sec =
    not lan_enabled
    || (not (is_empty sec.basic_auth_username) && not (is_empty sec.basic_auth_password))

join_char-some :
    (c : Option Char) (rest : Option String) (s : String)
    → join_char c rest ≡ some s
    → (t : String) × (rest ≡ some t) × (text_length s ≡ 1 + text_length t)
join_char-some none rest s h = ground (arith, h)
join_char-some (some c) none s h = ground (arith, h)
join_char-some (some c) (some t) s h = (t, refl, ap text_length (sym (some-injective _ _ h)))

-- A generated password has the length that is asked for.
password_from-length :
    (r : ℕ → ℕ → Option ℕ) (n i : ℕ) (s : String) → password_from r i n ≡ some s → text_length s ≡ n
unfolding password_from
password_from-length r zero i s h = ap text_length (sym (some-injective _ _ h))
password_from-length r (suc n) i s h =
    let (t, e, k) = join_char-some (drawn (r _ i)) (password_from r (1 + i) n) s h in
    let l = password_from-length r n (1 + i) t e in
    let total : 1 + text_length t ≡ suc n = omega (arith, l) in k ∙ total

generate_password-length :
    (r : ℕ → ℕ → Option ℕ) (n : ℕ) (s : String) → generate_password r n ≡ some s → text_length s ≡ n
unfolding generate_password
generate_password-length r zero s h = ground (arith, h)
generate_password-length r (suc n) s h = password_from-length r (suc n) 0 s h

pub nonempty_of_length : (s : String) (n : ℕ) → text_length s ≡ suc n → is_empty s ≡ false
nonempty_of_length String.[] n h = ground (arith, h)
nonempty_of_length (String.◌∷◌ c s) n h = refl

-- What the libraries document: `rand.Read` fills the buffer that it is given, and base64 writes a buffer
-- that is not empty as a text that is not empty.
pub record IsMachine (m : Machine) : Type 0 where
  pub filled : (buf : String) → m.rand_read ≡ some buf → text_length buf ≡ secret_length
  pub encoded : (buf : String) → is_empty buf ≡ false → is_empty (m.encode buf) ≡ false

-- What ensuring has done to the secrets that were loaded.
pub record IsEnsured (lan_enabled : Bool) (sec : Secrets) (e : Ensured) : Type 0 where
  pub login : has_login lan_enabled e.secrets ≡ true
  pub schema : e.secrets.schema_version ≡ sec.schema_version
  pub kept : e.updated ≡ false → e.secrets ≡ sec
  pub quiet : e.updated ≡ false → is_empty e.generated ≡ true
  pub told :
      lan_enabled ≡ true
      → is_empty sec.basic_auth_password ≡ true
      → (e.updated ≡ true)
        × (e.generated ≡ e.secrets.basic_auth_password)
        × (text_length e.generated ≡ password_length)

ensure_username-IsEnsured :
    (sec : Secrets)
    → is_empty sec.basic_auth_password ≡ false
    → IsEnsured true sec (ensure_username sec)
ensure_username-IsEnsured sec h = elim (Bool-cases (is_empty sec.basic_auth_username)) [
  | inl e ↦ rw e (record {
    login = ground (arith, h);
    schema = refl;
    kept = λ k. ground (arith, k);
    quiet = λ k. ground (arith, k);
    told = λ l k. ground (arith, h, k);
  })
  | inr e ↦ rw e (record {
    login = ground (arith, e, h);
    schema = refl;
    kept = λ k. refl;
    quiet = λ k. refl;
    told = λ l k. ground (arith, h, k);
  })
]

ensure_username-named :
    (sec : Secrets) → is_empty (ensure_username sec).secrets.basic_auth_username ≡ false
ensure_username-named sec = elim (Bool-cases (is_empty sec.basic_auth_username)) [
  | inl e ↦ rw e refl
  | inr e ↦ rw e e
]

ensure_username-password :
    (sec : Secrets) → (ensure_username sec).secrets.basic_auth_password ≡ sec.basic_auth_password
ensure_username-password sec = elim (Bool-cases (is_empty sec.basic_auth_username)) [
  | inl e ↦ rw e refl
  | inr e ↦ rw e refl
]

ensure_username-schema :
    (sec : Secrets) → (ensure_username sec).secrets.schema_version ≡ sec.schema_version
ensure_username-schema sec = elim (Bool-cases (is_empty sec.basic_auth_username)) [
  | inl e ↦ rw e refl
  | inr e ↦ rw e refl
]

ensure_lan_auth-IsEnsured :
    (m : Machine) (lan_enabled : Bool) (sec : Secrets) (e : Ensured)
    → ensure_lan_auth m lan_enabled sec ≡ some e
    → IsEnsured lan_enabled sec e
unfolding ensure_lan_auth
ensure_lan_auth-IsEnsured m false sec e h =
    subst (IsEnsured false sec) (some-injective _ _ h) (record {
      login = refl;
      schema = refl;
      kept = λ k. refl;
      quiet = λ k. refl;
      told = λ l. ground (arith, l);
    })
ensure_lan_auth-IsEnsured m true sec e h =
    elim (Bool-cases (is_empty (ensure_username sec).secrets.basic_auth_password)) [
      | inl missing ↦ elim (Option-cases (generate_password m.rand_int password_length)) [
        | inl failed ↦ absurd (none-ne-some e (sym (ground (arith, missing, failed)) ∙ h))
        | inr (pw, made) ↦
            let long = generate_password-length m.rand_int password_length pw made in
            let filled = nonempty_of_length pw 23 long in
            let named = ensure_username-named sec in
            let set : set_password (ensure_username sec) (some pw) ≡ some e =
              sym (rw (missing, made) refl) ∙ h in
            subst (IsEnsured true sec) (some-injective _ _ set) (record {
              login = rw (named, filled) refl;
              schema = ensure_username-schema sec;
              kept = λ k. ground (arith, k);
              quiet = λ k. ground (arith, k);
              told = λ l k. (refl, refl, long);
            })
      ]
      | inr there ↦
          let same : some (ensure_username sec) ≡ some e = sym (rw there refl) ∙ h in
          subst (IsEnsured true sec) (some-injective _ _ same) (
            ensure_username-IsEnsured sec
              (sym (ap is_empty (ensure_username-password sec)) ∙ there))
    ]

ensure_sse_secret-IsEnsured :
    (m : Machine) (lan_enabled : Bool) (sec : Secrets) (e e' : Ensured)
    → IsEnsured lan_enabled sec e
    → ensure_sse_secret m e ≡ some e'
    → IsEnsured lan_enabled sec e'
unfolding ensure_sse_secret
ensure_sse_secret-IsEnsured m lan_enabled sec e e' h k =
    elim (Bool-cases (is_empty e.secrets.sse_hmac_secret)) [
      | inr there ↦
          let same : some e ≡ some e' = sym (rw there refl) ∙ k in
          subst (IsEnsured lan_enabled sec) (some-injective _ _ same) h
      | inl missing ↦ elim (Option-cases m.rand_read) [
        | inl failed ↦ absurd (none-ne-some e' (sym (rw (missing, failed) refl) ∙ k))
        | inr (buf, read) ↦
            let set : set_sse_secret e (some (m.encode buf)) ≡ some e' =
              sym (rw (missing, read) refl) ∙ k in
            subst (IsEnsured lan_enabled sec) (some-injective _ _ set) (record {
              login = h.login;
              schema = h.schema;
              kept = λ x. ground (arith, x);
              quiet = λ x. ground (arith, x);
              told = λ l x. let (u, g, n) = h.told l x in (refl, g, n);
            })
      ]
    ]

ensure_sse_secret-secret :
    (m : Machine) (e e' : Ensured)
    → IsMachine m
    → ensure_sse_secret m e ≡ some e'
    → is_empty e'.secrets.sse_hmac_secret ≡ false
unfolding ensure_sse_secret
ensure_sse_secret-secret m e e' d k = elim (Bool-cases (is_empty e.secrets.sse_hmac_secret)) [
  | inr there ↦
      let same : some e ≡ some e' = sym (rw there refl) ∙ k in
      subst (λ x. is_empty (Ensured.secrets x).sse_hmac_secret ≡ false) (some-injective _ _ same)
        there
  | inl missing ↦ elim (Option-cases m.rand_read) [
    | inl failed ↦ absurd (none-ne-some e' (sym (rw (missing, failed) refl) ∙ k))
    | inr (buf, read) ↦
        let set : set_sse_secret e (some (m.encode buf)) ≡ some e' =
          sym (rw (missing, read) refl) ∙ k in
        subst (λ x. is_empty (Ensured.secrets x).sse_hmac_secret ≡ false) (some-injective _ _ set)
          (d.encoded buf (nonempty_of_length buf 31 (d.filled buf read)))
  ]
]

-- What is ensured comes of the two steps.
steps :
    (m : Machine) (lan_enabled : Bool) (sec : Secrets) (e : Ensured)
    → ensure_sse_after m (ensure_lan_auth m lan_enabled sec) ≡ some e
    → (e' : Ensured) × (ensure_lan_auth m lan_enabled sec ≡ some e')
      × (ensure_sse_secret m e' ≡ some e)
steps m lan_enabled sec e h = elim (Option-cases (ensure_lan_auth m lan_enabled sec)) [
  | inl failed ↦ absurd (none-ne-some e (sym (rw failed refl) ∙ h))
  | inr (e', ensured) ↦ (e', ensured, sym (rw ensured refl) ∙ h)
]

pub ensure-IsEnsured :
    (m : Machine) (lan_enabled : Bool) (sec : Secrets) (e : Ensured)
    → ensure_sse_after m (ensure_lan_auth m lan_enabled sec) ≡ some e
    → IsEnsured lan_enabled sec e
ensure-IsEnsured m lan_enabled sec e h =
    let (e', ensured, made) = steps m lan_enabled sec e h in
    ensure_sse_secret-IsEnsured m lan_enabled sec e' e
      (ensure_lan_auth-IsEnsured m lan_enabled sec e' ensured) made

pub record IsReady (lan_enabled : Bool) (sec : Secrets) (e : Ensured) : Type 0 where
  pub ensured : IsEnsured lan_enabled sec e
  pub secret : is_empty e.secrets.sse_hmac_secret ≡ false

pub ensure-IsReady :
    (m : Machine) (lan_enabled : Bool) (sec : Secrets) (e : Ensured)
    → IsMachine m
    → ensure_sse_after m (ensure_lan_auth m lan_enabled sec) ≡ some e
    → IsReady lan_enabled sec e
ensure-IsReady m lan_enabled sec e d h =
    let (e', ensured, made) = steps m lan_enabled sec e h in
    record {
      ensured = ensure-IsEnsured m lan_enabled sec e h;
      secret = ensure_sse_secret-secret m e' e d made;
    }

-- Secrets that are complete are left as they are.
pub ensure_complete :
    (m : Machine) (lan_enabled : Bool) (sec : Secrets)
    → has_login lan_enabled sec ≡ true
    → is_empty sec.sse_hmac_secret ≡ false
    → ensure_sse_after m (ensure_lan_auth m lan_enabled sec)
      ≡ some (record { secrets = sec; updated = false; generated = "" })
unfolding ensure_lan_auth ensure_sse_secret
ensure_complete m false sec h k = rw k refl
ensure_complete m true sec h k =
    let named : is_empty sec.basic_auth_username ≡ false = ground (arith, h) in
    let locked : is_empty sec.basic_auth_password ≡ false = ground (arith, h) in
    rw (named, locked, k) refl
