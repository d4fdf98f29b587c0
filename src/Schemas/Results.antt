-- ===== src/Schemas/Results.antt =====
-- The records that the stages exchange: app/schemas/normalize.py, unchain.py, threat_db.py,
-- domain_heuristic.py, content_analysis.py, pipeline.py and db_independent_pipeline.py. Times are
-- microseconds, the precision to which the program rounds; a ratio is in thousandths; a date is the
-- number of its seconds since the epoch. A missing value is `none`.
use lin_clean_be_fastapi.Prelude.{ℕ, Bool, false, Option, none, List, [], Text}
use lin_clean_be_fastapi.Prelude.Int.{ℤ}
use lin_clean_be_fastapi.Schemas.Signals.{
  DomainHeuristicSignal, ContentSignal, AiVerdict, DomainHeuristicSkippedReason, PipelineStage,
  Verdict,
}

pub record NormalizeResult : Type 0 where
  pub original_url : Text
  pub normalized_url : Text
  pub scheme_was_added : Bool

pub record HopRecord : Type 0 where
  pub url : Text
  pub status_code : ℕ
  pub raw_location : Option Text
  pub location : Option Text
  pub method : Text

pub record UnchainResult : Type 0 where
  pub input_url : Text
  pub final_url : Text
  pub hops : List HopRecord
  pub hop_count : ℕ
  pub timed_out : Bool
  pub error : Option Text
  pub signals : List Text

pub record GsbMatch : Type 0 where
  pub threat_type : Text
  pub platform_type : Option Text
  pub cache_duration : Option Text

pub record GsbResult : Type 0 where
  pub checked : Bool
  pub is_threat : Bool
  pub matches : List GsbMatch
  pub error : Option Text

pub data MatchType : Type 0 where
  url host host_path : MatchType

pub record UrlhausResult : Type 0 where
  pub checked : Bool
  pub is_threat : Bool
  pub match_type : Option MatchType
  pub matched_key : Option Text
  pub threat : Option Text
  pub tags : List Text
  pub urlhaus_link : Option Text
  pub error : Option Text

pub record ThreatDbResult : Type 0 where
  pub final_url : Text
  pub is_malicious : Bool
  pub sources_checked : ℕ
  pub gsb : GsbResult
  pub urlhaus : UrlhausResult
  pub threat_types : List Text

pub record RdapInfo : Type 0 where
  pub domain : Text
  pub registrar : Option Text
  pub created_date : Option ℕ
  pub expiry_date : Option ℕ
  pub domain_age_days : Option ℤ
  pub is_new_domain : Bool

pub record DomainHeuristicResult : Type 0 where
  pub domain : Text
  pub score : ℕ
  pub signals : List DomainHeuristicSignal
  pub rdap : Option RdapInfo
  pub rdap_error : Option Text
  pub skipped_reason : Option DomainHeuristicSkippedReason

pub record TokenUsage : Type 0 where
  pub prompt_tokens : ℕ
  pub completion_tokens : ℕ
  pub total_tokens : ℕ

pub record ContentAnalysisResult : Type 0 where
  pub final_url : Text
  pub fetched : Bool
  pub status_code : Option ℕ
  pub score : ℕ
  pub signals : List ContentSignal
  pub title : Option Text
  pub has_password_field : Bool
  pub has_password_form_external_action : Bool
  pub has_meta_refresh : Bool
  pub has_external_meta_refresh : Bool
  pub external_link_ratio : Option ℕ
  pub brand_impersonation : Bool
  pub logo_alt_impersonation : Bool
  pub is_spa_shell : Bool
  pub body_text_snippets : List Text
  pub form_field_summaries : List Text
  pub cta_texts : List Text
  pub download_links : List Text
  pub sensitive_field_types : List Text
  pub korean_lure_keywords : List Text
  pub public_agency_keywords : List Text
  pub precision_analysis_used : Bool
  pub precision_analysis_error : Option Text
  pub ai_verdict : Option AiVerdict
  pub ai_reason : Option Text
  pub reason : Option Text
  pub ai_error : Option Text
  pub ai_model : Option Text
  pub ai_token_usage : Option TokenUsage
  pub error : Option Text

-- `ContentAnalysisResult(final_url=..., fetched=...)`: every other field at its default.
abbrev pub content_defaults : Text → Bool → ContentAnalysisResult
content_defaults target got = record {
  final_url = target;
  fetched = got;
  status_code = none;
  score = 0;
  signals = [];
  title = none;
  has_password_field = false;
  has_password_form_external_action = false;
  has_meta_refresh = false;
  has_external_meta_refresh = false;
  external_link_ratio = none;
  brand_impersonation = false;
  logo_alt_impersonation = false;
  is_spa_shell = false;
  body_text_snippets = [];
  form_field_summaries = [];
  cta_texts = [];
  download_links = [];
  sensitive_field_types = [];
  korean_lure_keywords = [];
  public_agency_keywords = [];
  precision_analysis_used = false;
  precision_analysis_error = none;
  ai_verdict = none;
  ai_reason = none;
  reason = none;
  ai_error = none;
  ai_model = none;
  ai_token_usage = none;
  error = none;
}

pub record PipelineStageTimings : Type 0 where
  pub normalize : Option ℕ
  pub unchain : Option ℕ
  pub threat_db : Option ℕ
  pub domain_heuristic : Option ℕ
  pub content_analysis : Option ℕ

abbrev pub no_timings : PipelineStageTimings
no_timings = record {
  normalize = none;
  unchain = none;
  threat_db = none;
  domain_heuristic = none;
  content_analysis = none;
}

pub record PipelineTimings : Type 0 where
  pub total_seconds : ℕ
  pub stages : PipelineStageTimings

pub record PipelineStages : Type 0 where
  pub normalize : NormalizeResult
  pub unchain : UnchainResult
  pub threat_db : ThreatDbResult
  pub domain_heuristic : DomainHeuristicResult
  pub content_analysis : ContentAnalysisResult

pub record PipelineSuccess : Type 0 where
  pub analysis_id : Text
  pub original_url : Text
  pub final_url : Text
  pub verdict : Verdict
  pub score : ℕ
  pub summary : Option Text
  pub timings : Option PipelineTimings
  pub stages : PipelineStages

pub record PipelineFailure : Type 0 where
  pub analysis_id : Text
  pub original_url : Text
  pub final_url : Option Text
  pub failed_at_stage : PipelineStage
  pub error : Text
  pub error_code : Option Text
  pub status_code : Option ℕ
  pub timings : Option PipelineTimings

pub data PipelineResult : Type 0 where
  succeeded : PipelineSuccess → PipelineResult
  failed : PipelineFailure → PipelineResult

pub record DbIndependentPipelineStages : Type 0 where
  pub normalize : NormalizeResult
  pub unchain : UnchainResult
  pub domain_heuristic : DomainHeuristicResult
  pub content_analysis : ContentAnalysisResult

pub record DbIndependentPipelineSuccess : Type 0 where
  pub analysis_id : Text
  pub original_url : Text
  pub final_url : Text
  pub verdict : Verdict
  pub score : ℕ
  pub timings : Option PipelineTimings
  pub stages : DbIndependentPipelineStages

pub record DbIndependentPipelineFailure : Type 0 where
  pub analysis_id : Text
  pub original_url : Text
  pub final_url : Option Text
  pub failed_at_stage : PipelineStage
  pub error : Text
  pub error_code : Option Text
  pub status_code : Option ℕ
  pub timings : Option PipelineTimings

pub data DbIndependentPipelineResult : Type 0 where
  succeeded : DbIndependentPipelineSuccess → DbIndependentPipelineResult
  failed : DbIndependentPipelineFailure → DbIndependentPipelineResult
