-- ===== src/Lib.antt =====
-- A verification library for the URL analysis backend LinClean (app/, FastAPI): from the URL of a
-- request to the verdict that the user gets.
--
-- The parts and how they interact. `run_pipeline` (app/services/pipeline.py) normalises a URL, follows
-- its redirects (stage 1, app/services/unchainer/unchain.py), looks it up in the threat databases and
-- checks its domain in two tasks that race (stages 2 and 3, app/services/threat_db/ and
-- app/services/domain_heuristic/), analyses the page (stage 4, app/services/content_analyzer/), and
-- adds up the scores. `run_db_independent_pipeline` (app/services/db_independent_pipeline.py) does the
-- same without the databases. Each stage runs under a time budget
-- (app/services/pipeline_deadline.py).
--
-- Which file models which part:
--   Settings        the settings that the code reads (app/core/config.py); theorems range over them
--   Schemas         the enumerations and records of app/schemas/
--   Pipeline        `run_pipeline`: a stage is a function from a `Step` (clock, timings, value) to the
--                   next; the services are the fields of `Stages`
--   Reputation      `_run_stage_2_and_3`: two tasks, each with its duration and its outcome
--   Scoring         `_total_score`, `_decide_verdict` and the signal of a redirect
--   DbIndependent   `run_db_independent_pipeline`, its score, verdict and list of signals
--   Normalizer      app/services/normalizer/normalize.py; Paths is the percent encoding and the
--                   path. The pipelines take any normaliser; Answers is `run_pipeline` with this one
--   Unchainer       `unchain_url`: Hop is `_follow_one_hop` and the check of the host, Chain the loop
--                   over the hops with its state (hops, signals, visited URLs, current URL); the
--                   theorems stand in Safety and Total, on Walk, Laws, Blind and Raises
--   ThreatDb        `check_threat_db` with its merges (Merge), the client of Google Safe Browsing (Gsb)
--                   and the lookup in the URLhaus table, `check_urlhaus` and `derive_keys` (Urlhaus); Sync
--                   is urlhaus_sync.py, in which the generator of the rows and the chunks run in step
--   DomainHeuristic `check_domain_heuristic`
--   Typosquatting   `check_typosquatting`; Distance is `_levenshtein`
--   Unavailability  app/services/page_unavailability.py
--   Summary         app/services/analysis_summary.py
--   Patterns        app/services/domain_heuristic/patterns.py; Tables holds its tables
--   Content         app/services/content_analyzer/: Features and Ai are what extract.py and ai.py
--                   exchange, Brands and Score are signals.py, Analyze is `analyze_content`, whose
--                   services are the fields of `Services`; OpenAi is the provider of ai_openai.py, whose
--                   request is a parameter; the root has the degraded results
--   Deadline        app/services/pipeline_deadline.py, with `asyncio.wait_for`
--   Callback        the reasons and the retries of app/services/analysis_callback.py
--   Tld             app/core/tld.py
--   Metrics         the counts of app/services/evaluation/metrics.py
--   Urllib          the parts of Python's `urllib.parse` that the code above uses
--   Prelude         shared names, lists, texts and integers
--   Samples         concrete data for the tests, which stand in the modules named Tests
--
-- Conventions. A text is the list of its code points; an exception is a value (`none` of an Option,
-- or `exception` of an Outcome), and so is a timeout. Times are microseconds, the precision to which
-- the code rounds, and computing takes no time: only awaited operations do. A stage that is cut off
-- takes a time of its own to end (`late`), which is a parameter; only the heuristics that a match
-- cancels within `_run_stage_2_and_3` are taken to end at once. The clock is passed from stage to
-- stage. The loop over the hops is recursion on the number of rounds left, which is the setting
-- `unchain_max_hops`; no definition takes other fuel, and all are total.
--
-- What is not modelled: the HTTP client, DNS, `ipaddress`, `urljoin`, `parse_qs`, the database
-- session, RDAP, the check of generated names, Unicode normalisation, IDNA, the extraction, the
-- rendering, the requests to the model and `json` are parameters (fields of `Stages`, `Web`,
-- `Checks`, `Stdlib`, `Services`, `JsonLib`, `Reader`, `Database` and `Session`, and the clients of
-- `check_threat_db`), and the theorems range over all of them. The brand labels of a page are loaded
-- once: a `brands.txt` that cannot be loaded is an end of `read_brand_labels`, and the analysis
-- takes the labels as loaded. Logging, caches, the rest of the callback's payload, the web framework
-- and a cancellation of the whole request are left out. The floating-point ratios of the metrics are
-- left out. `urlparse` is modelled without the checks of newer Python versions on a host in brackets
-- and without its NFKC check. Where `_skipped_heuristic` and `timed_out_domain_result` are called
-- for a final URL that `urlparse` refuses, the code raises; here the registered domain is then the
-- empty text.
pub mod Prelude
pub mod Settings
pub mod Schemas
pub mod Unavailability
pub mod Urllib
pub mod Tld
pub mod Deadline
pub mod Scoring
pub mod Summary
pub mod Content
pub mod Reputation
pub mod Normalizer
pub mod Patterns
pub mod Pipeline
pub mod ThreatDb
pub mod Unchainer
pub mod DbIndependent
pub mod Typosquatting
pub mod DomainHeuristic
pub mod Metrics
pub mod Samples
pub mod Callback
