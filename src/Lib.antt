-- ===== src/Lib.antt =====
-- AmigoUK/qms-bakery: the services of the bakery's quality-management system, modelled and proved.
--
-- The program is a Flask application. Its services change rows of a database, write an audit entry
-- for each change, and queue messages. A service is modelled as a function on one session, `World`
-- in World.antt, which holds every table as a list of records in the order of insertion, and the
-- queued jobs. What a call reads from outside is `Env`: the clock, the request, the configuration,
-- and the functions that are not the program's own (SHA-256 of an audit payload, bcrypt's checkpw,
-- the HMAC of a magic link, str.format, repr, the order of a set, how a float is written). A service that may raise returns a `Result` beside the
-- session, by the monad `Session`; rows written before a raise stay, as they do until the caller
-- rolls back, but for a failed flush, which rolls the transaction back itself (`rolled_back`: gates and
-- queues are in Redis and stay). The transaction of record_measurement, submit_response and evaluate begins
-- with the call, as in the views and workers that call them.
--
-- Prelude      natural numbers, lists, options, texts (app/constants.py has no logic of its own),
--              civil dates and instants; Prelude/Decimal: str and int of Python, and split;
--              Prelude/Url: urlparse; Json: the values of JSON columns
-- Models       the tables and enumerations of app/models: tickets and their transitions, audit rows
--              with compute_checksum, training, users and roles, triggers, HACCP and SALSA rows
-- Audit        app/services/audit.py: record (`record_entry`) and verify_chain; Audit/Chain: the
--              chain under a new entry; Audit/Tamper: what the hashes pin; Audit/Order: the keys
-- Tickets      app/services/tickets.py: create_ticket, transition, assign_to, add_comment;
--              Tickets/Number: generate_ticket_number; Tickets/Query: list_tickets, stats_overview;
--              Tickets/Views: the views of app/blueprints/tickets.py that change tickets;
--              Tickets/Life: any sequence of these operations (`Op`, `apply`, `Reach`, `run`)
-- Gdpr         app/services/gdpr.py: _redact_audit_rows; Gdpr/Subjects: redact_trainee, redact_user,
--              redact; Gdpr/Rehash and Gdpr/Erasure: what they leave
-- Auth         app/auth.py: authenticate and require_permission; Auth/Lockout, Auth/Guesses and
--              Auth/Access: their outcomes; Auth/Totp: app/services/totp.py, totp_crypto.py and the
--              command totp-rotate-keys of app/__init__.py; Auth/Login: the views of
--              app/blueprints/auth.py over the session of a browser, and the gate of app/__init__.py
--              for roles that need a second factor
-- Training     app/services/training.py: Calendar (_add_months), Queries (latest_certification,
--              has_open_enrolment, is_due_for_recert, trainees_due_for_course), Compliance
--              (compliance_state), Catalogue (create_trainee, create_course, add_course_version),
--              Queue and Enrol (enrol, _deliver_magic_link, issue_token of training_links.py),
--              Links (verify_token, get_enrolment_by_token, get_enrolment_with_reason),
--              Matrix (build_compliance_matrix), Bulk (plan_bulk_issue, apply_bulk_issue),
--              Csv (the imports of training_csv.py: plan_courses_import and apply_courses_plan,
--              plan_trainees_import and apply_trainees_plan),
--              Exam (start_attempt, submit_attempt, record_declaration),
--              Reminders (_classify_reminder, _mark_reminder_sent, send_pending_reminders)
-- Triggers     app/services/triggers.py and trigger_state.py: Condition (evaluate_condition), Gate
--              (should_fire_with_duration), Respond (_dispatch_responder), Fire (fire, evaluate)
-- Haccp        app/services/haccp.py: record_measurement; Haccp/Breach: its outcomes
-- Salsa        app/services/salsa.py: submit_response; Salsa/Submitted: its outcomes
-- RateLimit    app/services/ratelimit.py: check, on rows that stand for Redis keys, _ident_for_request
--              and rate_limit; RateLimit/Window: what a window lets through, against the promise
--              of a plain count (RateLimit/Window/Refines)
-- Retention    app/services/retention.py: sweep; Retention/Swept and Retention/Trail: its outcomes
-- Telemetry    app/mqtt/bridge.py, app/services/stream.py and app/workers/trigger_worker.py: the
--              parser of readings, the stream with its pending entries, and the worker
-- Jobs         app/jobs/webhook.py and app/jobs/sms.py: the jobs of the queues, over the network
-- Samples      a small plant on which the modules named Tests evaluate the models
--
-- How the parts interact: every service calls Audit.record_entry on the session it has changed;
-- Triggers, Haccp and Salsa open tickets through Tickets, and Triggers issues
-- links through Training; Tickets and Auth share the users; Training reads versions and certificates, and sends through the
-- queue; Gdpr reads the rows that hang on a trainee and rewrites the audit rows about them;
-- Retention calls Gdpr for the trainees it redacts; Telemetry hands readings to Triggers; Auth/Login
-- calls authenticate and the second factor of Auth/Totp.
--
-- Conventions. A UUID is a number from `next_id` and `env.uuid` writes it; a checksum is the number
-- its digits write. A moment is the seconds of a civil date and time (`instant`), one per call.
-- Thresholds are thousandths and a score is the number of right answers, so that comparisons are
-- exact where the code compares floats. str.lower covers the letters A to Z. The number of a ticket
-- is read as text from the greatest row, as the query does. The order of texts is by code point.
-- Decimal digits take the number itself plus one as fuel, which is enough since a tenth is smaller;
-- `consume` runs a number of rounds, and the theorem about it says how many are enough; every other
-- recursion is structural. int() and isdigit() are those of ASCII digits, urlparse that of ASCII text.
--
-- Parameters of a part. `Reader` (Telemetry) is json.loads and float; `float_of` (Training/Csv) is
-- float; `Vault` (Auth/Totp) holds the configured keys, Fernet, MultiFernet and pyotp, and `IsFernet`
-- is what Fernet documents of them; `Site` (Auth/Login) has Flask-Login's login_user, and `Enters` is
-- what is documented of it; `Net` (Jobs) is the resolver, the server that answers and redirects, json.dumps and the
-- HMAC;
-- a handler of the stream is any function.
--
-- Not modelled: the database engine and its transactions, Flask's routing and templates, RQ and
-- Redis beyond the keys and entries named above, the MQTT client and the loops of the worker
-- processes, and what the manifest lists as not modelled (the exports of
-- training_csv.py, the DSAR export, reports, the views but those of sign-in and of tickets, seeds and migrations).
-- Log messages are left out.
pub mod Audit
pub mod Auth
pub mod Gdpr
pub mod Haccp
pub mod Jobs
pub mod Json
pub mod Models
pub mod Prelude
pub mod RateLimit
pub mod Retention
pub mod Salsa
pub mod Samples
pub mod Telemetry
pub mod Tickets
pub mod Training
pub mod Triggers
pub mod World
