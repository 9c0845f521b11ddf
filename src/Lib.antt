-- ===== src/Lib.antt =====
-- CaddyBuddy, a web application that manages a Caddy server: sites, certificates and their renewal,
-- control of the Caddy process, and logins with a second factor. This library models the parts of it
-- that decide, and states what they guarantee.
--
-- Parts, and the files that model them (paths from the root of the repository):
--
--   Text, Prelude: strings as lists of code points, with the methods of `str` that the program calls;
--     Boolean tests, lists and lemmas that all parts share. `str.lower` is a parameter (`Runtime`).
--   Domains: app/utils/domains.py. `split_domain_names` turns the text of a site into its domains.
--   Certificates: app/services/certificates.py. Cover is `dns_name_covers`, Coverage is
--     `certificate_coverage_for_domain` and `artifact_scope_from_cert_path`, Dates is
--     `certificate_info_from_dates`, Find is `find_certificate_for_domain`. A time is a number of
--     microseconds. Parsing X.509 and walking the storage are not modelled: a scan is an answer of the
--     outside.
--   Renewal: app/services/renewal.py. Plan is `build_plan`, Execute is `execute`: Wait has the polling
--     loops, Verify the final verification, Paths the four ways to renew, Run the plan comparison, the
--     lock and the dispatch. A coroutine is a function of the history of the calls made so far, which
--     returns or raises, and adds the calls it makes (Effects). What is called (the supervisor, the
--     Admin API, the storage, the clock, the lock file, the callback) is a record of answers, each of
--     which may depend on the whole history; so a theorem for all such records holds for any behaviour
--     of the outside, and for any interleaving with other processes that shows in the answers.
--     Effects/Keeps and Effects/Yields are the two program logics used in the proofs.
--   Supervisor: app/services/supervisor.py. Control is restart, reload and status of the four
--     supervisors on the end of a child process, ScriptPath is `_validate_script_path` on a file system,
--     Names the constructors.
--     Renewal calls the supervisors through its record of answers.
--   Web: Session is `get_session_user` and the start of a session in app/dependencies/web.py, on the
--     session as a dictionary, with the users stored at the time of each request; Csrf the token of the
--     same file and `CSRFMiddleware` of app/middleware/csrf.py, which decides on what it reads of a
--     request; Redirect is `safe_redirect_path`, Flash `push_flash`. A time is a number of
--     microseconds; in a session it may also be infinity or NaN, as floats are. `urlsplit`,
--     `normpath`, `unquote`, `float` and `int` on strings and the HMACs are parameters.
--   Auth: logins. Captcha is app/utils/hidden_captcha.py, Password the policy of app/services/auth.py,
--     the rest the second factor: Otp is app/utils/otp.py, Users the updates of the OTP columns in
--     app/repositories/users.py, Service the methods of app/services/auth.py. A session has the row of
--     the database and the object it loaded before, which may be outdated. HMAC, Base32, Fernet and
--     JSON are parameters.
--   Settings: Admin is app/utils/admin_targets.py and `normalize_caddy_api_url`, Location is
--     `normalize_caddyfile_path`, Candidates `suggest_caddyfile_path`, Values the contact address, the
--     rate limit and the retention, all of app/services/runtime_settings.py. `ip_address`, `urlsplit`,
--     `pathlib` and `int` are parameters.
--   SslLabs: app/utils/ssllabs.py. Host is `validate_ssllabs_host`, Schedule the frequencies and
--     `next_schedule_time`, on a calendar that is a parameter, Status the ranks and classes.
--   Caddyfile: app/utils/caddyfile.py. Lexical has the comments, tokens, bodies and the brace check,
--     Split the split of directives into chunks and of a chunk into header and body, Build
--     `prepare_domain_directives` and `build_domain_directives`, Queries the questions about
--     directives, Sites the generated site blocks, Parse `parse_caddyfile`, Inject
--     `inject_global_options`. A `ValueError` is `none` or an error as data; an `IndexError` is the
--     constructor `index_error`. What a pattern counts as a character of a word is a parameter.
--   Events: app/services/events.py. Bus has the streams and the operations of the bus, Reach the step
--     relation on buses: any client may subscribe, read, wait, wake and close in any order.
--
-- Loops over lists are structural recursion. The loop of `parse_caddyfile`, which skips the lines of a
-- block, gets fuel for every line; each round takes one line or more. The loop of `next_schedule_time`
-- gets fuel for every second up to the least time asked for; each round moves on by one or more. The
-- two polling loops of Wait get fuel for two rounds more than the timeout has poll intervals; running
-- out is the exception `stuck`, which no handler catches. For the loop that waits for the artifacts it
-- is proved that this is enough when no call turns the clock back, a sleep takes as long as it was
-- asked to, and nothing cancels the coroutine; for the loop that waits for the Admin API nothing is
-- proved about it.
--
-- Not modelled: the hashing of passwords behind the two validations, the HTTP layer, the database
-- queries other than the OTP updates, the service around the Caddyfile, the state of SSL Labs scans,
-- passkeys, the templates and scripts. Log output is left out throughout.
pub mod Prelude
pub mod Text
pub mod Domains
pub mod Certificates
pub mod Renewal
pub mod Supervisor
pub mod Web
pub mod Auth
pub mod Events
pub mod Settings
pub mod SslLabs
pub mod Caddyfile
