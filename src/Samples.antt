-- ===== src/Samples.antt =====
-- Concrete data for the tests and the instances of the theorems.
use lin_clean_be_fastapi.Prelude.{ℕ, Bool, true, false, none, [], ◌∷◌, Text}
use lin_clean_be_fastapi.Schemas.Signals.{typo_domain, no_https}
use lin_clean_be_fastapi.Schemas.Results.{
  NormalizeResult, UnchainResult, GsbResult, UrlhausResult, ThreatDbResult, DomainHeuristicResult,
  ContentAnalysisResult, content_defaults,
}
use lin_clean_be_fastapi.Deadline.{returned}
use lin_clean_be_fastapi.Pipeline.{normalized, Stages, Request}

abbrev pub site : Text
site = b'a' ∷ b'.' ∷ b'b' ∷ []

abbrev pub norm : NormalizeResult
norm = record { original_url = site; normalized_url = site; scheme_was_added = false }

abbrev pub unchain : UnchainResult
unchain = record {
  input_url = site;
  final_url = site;
  hops = [];
  hop_count = 0;
  timed_out = false;
  error = none;
  signals = [];
}

abbrev pub gsb : Bool → GsbResult
gsb threat = record { checked = true; is_threat = threat; matches = []; error = none }

abbrev pub gsb_match : GsbResult
gsb_match = record {
  checked = true;
  is_threat = true;
  matches = record { threat_type = site; platform_type = none; cache_duration = none } ∷ [];
  error = none;
}

abbrev pub urlhaus : Bool → UrlhausResult
urlhaus threat = record {
  checked = true;
  is_threat = threat;
  match_type = none;
  matched_key = none;
  threat = none;
  tags = [];
  urlhaus_link = none;
  error = none;
}

abbrev pub threat_db : Bool → ThreatDbResult
threat_db threat = record {
  final_url = site;
  is_malicious = threat;
  sources_checked = 2;
  gsb = gsb threat;
  urlhaus = urlhaus threat;
  threat_types = [];
}

abbrev pub heuristic : DomainHeuristicResult
heuristic = record {
  domain = site;
  score = 50;
  signals = typo_domain ∷ no_https ∷ [];
  rdap = none;
  rdap_error = none;
  skipped_reason = none;
}

abbrev pub content : ContentAnalysisResult
content = record (content_defaults site true) { score = 20 }

-- Stages that return the samples, with the durations of the lookup and of the heuristics.
abbrev pub stages : Bool → ℕ → ℕ → Stages
stages threat lookup checks = record {
  normalize_url = λ url. normalized norm;
  normalize_duration = 10;
  unchain_url = λ url prefer. record { duration = 100; outcome = returned unchain };
  check_threat_db =
      λ url original. record { duration = lookup; outcome = returned (threat_db threat) };
  check_domain_heuristic = λ url. record { duration = checks; outcome = returned heuristic };
  analyze_content = λ url signals use_ai. record { duration = 5000; outcome = returned content };
  late = λ stage. 200;
}

abbrev pub request : Request
request = record { analysis_id = site; original_url = site; use_ai = true; started = 7 }
