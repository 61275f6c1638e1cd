-- ===== src/Api/Server/Entry/Lan.antt =====
-- LAN mode, from the start in cmd/vrclog/main.go to the handlers of internal/api/server.go.
use vrclog_companion.Prelude.{
  ◌≡◌, refl, sym, ◌∙◌, String, Bool, true, false, not, ◌&&◌, ◌||◌, Option, none, some, is_empty,
  arith, if◌then◌else◌, ◌⊎◌, inl, inr,
}
use vrclog_companion.Config.{Secrets, Disk}
use vrclog_companion.Config.Startup.{Machine, Startup, start}
use vrclog_companion.Config.Startup.Fresh.{has_login, IsMachine}
use vrclog_companion.Config.Startup.Login.{start-has_login}
use vrclog_companion.Api.Rate.{Bucket}
use vrclog_companion.Api.Token.{Kit}
use vrclog_companion.Api.Guard.{
  Reply, passes, unauthorized, forbidden, too_many, before_colon, is_state_changing,
}
use vrclog_companion.Api.Guard.Sources.{is_own, source_host, csrf_middleware-lan}
use vrclog_companion.Api.Server.{
  Handler, handle_health, WebFs, Limits, HttpRequest, Outcome, handled, refused, after_reply, Net,
  read_request,
}
use vrclog_companion.Api.Server.Serve.{main_server, serve_mux, check_csrf, serve_checked, serve}
use vrclog_companion.Api.Server.Entry.{IsAdmitted, serve_mux-IsAdmitted}

after_check-handled {ℓ} :
    {L : Type ℓ} (reply : Reply) (x : Outcome × L) (limits : L) (h : Handler)
    → (after_reply reply x (λ refusal. (refused refusal, limits))).0 ≡ handled h
    → (reply ≡ passes) × (x.0 ≡ handled h)
after_check-handled passes x limits h e = (refl, e)
after_check-handled unauthorized x limits h e = ground (arith, e)
after_check-handled forbidden x limits h e = ground (arith, e)
after_check-handled (too_many n) x limits h e = ground (arith, e)

own_of_passes : (b : Bool) → (if b then passes else forbidden) ≡ passes → b ≡ true
own_of_passes true h = refl
own_of_passes false h = ground (arith, h)

login_enables :
    (sec : Secrets)
    → (has_login true sec && not (is_empty sec.sse_hmac_secret)) ≡ true
    → (not (is_empty sec.basic_auth_username) && not (is_empty sec.basic_auth_password)) ≡ true
login_enables sec h = ground (arith, h)

-- After any start in LAN mode on a port without a ":", for any files and settings and with any limiters,
-- with a random source that fills its 32 bytes and base64 as documented: a request that gets to
-- a handler is for the health check; or it is from an address that is not locked out, and has the right
-- log-in, by its hashes, or else, for the stream alone, a token that the secret has signed, whose
-- payload is read as claims that have the scope of the stream and have not expired; and, if
-- its method changes something, its source is the machine itself. The files of the pages are served
-- by no handler.
pub serve-IsAdmitted {ℓ} :
    {B : Type ℓ} (bucket : Bucket B) (net : Net) (m : Machine) (disk disk' : Disk) (s : Startup)
    (port : String) (sha256 : String → String) (kit : Kit) (web : Option WebFs) (r : HttpRequest)
    (limits : Limits B) (h : Handler)
    → IsMachine m
    → before_colon port ≡ none
    → start m disk ≡ (disk', some s)
    → s.cfg.lan_enabled ≡ true
    → (serve bucket net (main_server s.cfg s.secrets port sha256 kit web) r limits).0.outcome
      ≡ handled h
    → (h ≡ handle_health)
      ⊎ (IsAdmitted net (main_server s.cfg s.secrets port sha256 kit web).auth r limits.failures h
          × ((not (is_state_changing r.method)
                || is_own (source_host net.parse_host (read_request net r)))
              ≡ true))
unfolding serve serve_checked check_csrf
serve-IsAdmitted bucket net m disk disk' s port sha256 kit web r limits h encoded digits started lan
      e =
    let server = main_server s.cfg s.secrets port sha256 kit web in
    let (passed, called) =
      after_check-handled _ (serve_mux bucket net server r limits) limits h e in
    let ready = start-has_login m disk disk' s encoded started in
    let enabled : server.auth_enabled ≡ true =
      rw lan (login_enables s.secrets (sym (rw lan refl) ∙ ready)) in
    let own = own_of_passes _ (
      sym (csrf_middleware-lan net.parse_host port (read_request net r) digits)
      ∙ sym (rw lan refl)
      ∙ passed) in
    elim (serve_mux-IsAdmitted bucket net server r h limits enabled called) [
      | inl health ↦ inl health
      | inr admitted ↦ inr (admitted, own)
    ]
