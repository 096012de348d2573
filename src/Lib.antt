-- ===== src/Lib.antt =====
-- A model of the back end of Circle Core, an HR system: the parts that decide, apart from the
-- framework, the database and the services that they call.
--
-- The parts and their files:
-- - RateLimit: app/core/rate_limit.py, the sliding-window limiter of the public routes. `allow` is
--   the method, on the limiter's state; `run` is a sequence of its calls. Reference is a limiter that
--   forgets nothing; Refines, with Sorted, compares the two, Bounds counts what is let through.
-- - Outbox: app/repositories/identity_outbox_repository.py and the delivery of
--   app/services/identity_sync.py, the queue of employee changes that goes to the identity service.
--   One function per SQL statement, on a table of rows by employee; a method of two statements, which
--   commit one by one, is also their composition. System is the step relation of requests, workers and
--   time, one step per statement, in which a worker may crash between any two; Race is about what may
--   come between the two statements of a failed report.
-- - Webhook: app/services/webhook_auth.py and app/api/routes/vapi_webhook.py, the check of a
--   signature, its freshness and the store of signatures that were used.
-- - Calls: app/services/screening_calls.py, the calls that screen a candidate. Start begins a call
--   and binds it to the provider's, Events takes the webhooks of the two providers, Sarvam is
--   app/services/sarvam_results.py. The table of calls is
--   part of the state; a call is begun in two steps, between which the provider dials and webhooks
--   may come in.
-- - Screening: app/services/screening.py, the answers of the web form and their rating, and, in
--   Results, app/services/screening_call_results.py, the score of a call. Calls.Events uses both.
-- - DocFields: app/services/doc_fields.py, fields out of the text of a scanned document. Patterns has
--   its regular expressions, Verhoeff the checksum of an Aadhaar number.
-- - Backfill: app/services/company_email_backfill.py, the plan of moves onto company mailboxes.
-- - BgvRecords: app/services/bgv_records.py, records for background verification.
-- - BgvChecks: app/services/bgv_checks.py, the start of one check at OnGrid, over a client that may
--   answer anything; it fills the records of BgvRecords.
-- - Phone: app/services/phone.py, phone numbers, which Calls.Start dials.
-- - Password: app/services/password.py, the stored form of a password.
-- - Resources: app/services/resource_service.py and app/repositories/document_repository.py, tables
--   of documents, which Routes, Accounts, DocRequests, Handoff, Applications, Cascade, Joining
--   and Handover are built on.
-- - Routes: app/api/routes/resources.py and app/domain/registry.py, the routes that all resources
--   share, with the guard before them.
-- - Accounts: app/api/routes/auth.py with the guards of app/api/dependencies.py. Sessions has logging
--   in and the own profile, Admin what administrators do, Links the links by which a password is set;
--   Requests has all routes as one function of a request.
-- - DocRequests: app/api/routes/doc_requests.py, documents that candidates hand in through a link.
--   Portal has what the holder of the link does, Review what HR does.
-- - Handoff: app/api/routes/candidate_handoff.py, the approved documents that go to the onboarding
--   system, out of the requests of DocRequests.
-- - Cascade: app/api/routes/candidate_delete.py, deleting a candidate with what hangs off them, on the
--   tables of Routes.
-- - Joining: app/api/routes/joining_confirmations.py, what candidates answer through a link before they
--   join.
-- - Handover: app/api/routes/exit_handover.py and app/services/crypto.py, the credentials that an
--   employee who leaves hands in and HR is shown.
-- - Applications: app/api/routes/public.py, the codes that show that an address is an applicant's, and,
--   in Apply, the job application, which uses Screening and app/services/resume_keywords.py.
-- - EmployeeCodes: app/services/employee_codes.py, new codes out of a sequence.
-- - Audio: voice_bridge/bridge/audio.py, sample data out of interleaved PCM and WAV files.
-- - Workbook: the column letters of app/services/xlsx_writer.py.
-- - Prelude, Dict, Text, Value and Builtins are shared: lists and numbers, dictionaries as association
--   lists with string keys, strings as lists of code points, JSON values and dictionaries of them, and
--   what is assumed of `str` and of the case map.
--
-- What is chosen:
-- - Times are natural numbers of ticks; each file says what a tick is. A difference of times that
--   could be negative is written as a sum on the other side. Calls compares times in their printed
--   form, as the source does, by code points.
-- - A loop is structural recursion on a list, or on the attempts that are left, but for two that run
--   on fuel: the loop over the chunks of a WAV file has as much as the file has bytes, of which each
--   round skips eight or more, and that of column letters two more than the column's index, which each
--   round makes smaller; so neither loop is cut short.
-- - `\d` and `str.isdigit` are tables of digits, of which the digits of ASCII are known. Case maps,
--   `str` of a value that is no string, the printing of times, HMAC and the reading of a
--   float are parameters. A number in JSON is an opaque code.
-- - The threshold 0.6 of a rating is compared as 5 k >= 3 n.
-- - A delivery to the webhook is one step; the system of Outbox lets time pass a lease only when the
--   worker that holds it no longer acts, which is what the length of the lease is for, and it lets no
--   claim take a row between the two UPDATEs of a failed report on it, which the code does not see to.
-- - A client of OnGrid raises nothing but OnGridError, and the individual's identifier is a number.
-- - The audit log is a list, and is taken to be configured; Accounts and Routes leave its entries out.
-- - In Accounts, DocRequests, Applications and Routes a request is one step, the database answers, and
--   a document comes back from it as it was saved. Accounts are JSON dictionaries; requests for
--   documents and applications are records in which a missing field is empty, and an application has
--   passed its schema. The salt, tokens and identifiers that are drawn are arguments; PBKDF2, base 64,
--   Fernet and the reading of times are parameters. In Applications a printed time is the time itself.
--
-- Not modelled: the other routes and the framework, SQL and transactions below a statement, the
-- clients of the providers, email, storage, OCR, exports, the encryption of sessions, the status that
-- OnGrid reports, and the sockets of the voice bridge.
mod Prelude
mod Dict
mod Text
mod Builtins
pub mod RateLimit
pub mod DocFields
pub mod Webhook
pub mod Password
pub mod EmployeeCodes
pub mod Resources
pub mod Routes
pub mod Accounts
pub mod DocRequests
pub mod Applications
pub mod Handoff
pub mod Cascade
pub mod Handover
pub mod Joining
pub mod Outbox
pub mod Screening
pub mod Value
pub mod Phone
pub mod Calls
pub mod BgvRecords
pub mod Backfill
pub mod BgvChecks
pub mod Audio
pub mod Workbook
