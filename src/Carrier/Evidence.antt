-- ===== src/Carrier/Evidence.antt =====
-- internal/carrier/evidence.go and profile.go: the evidence of finished jobs, and the execution profiles.
use tok.Prelude.{
  ℕ, suc, ℤ, ◌||◌, Option, some, none, List, [], ◌∷◌, String, ◌==◌, if◌then◌else◌, numbered,
}
use tok.Prelude.Dict.{Dict, get, put}
use tok.Core.Types.{Time}

pub record Artifact : Type 0 where
  pub name : String
  pub kind : String
  pub url : String
  pub size_bytes : ℤ

pub record UsageReport : Type 0 where
  pub token_count : ℤ
  pub step_count : ℤ
  pub api_call_count : ℤ
  pub total_cost_cents : ℤ

pub record EvidencePackage : Type 0 where
  pub id : String
  pub job_id : String
  pub binding_id : String
  pub summary : String
  pub artifacts : List Artifact
  pub usage_report : Option UsageReport
  pub submitted_at : Time

-- `EvidenceStore`
pub record EvidenceStore : Type 0 where
  pub seq : ℕ
  pub packages : Dict EvidencePackage

abbrev pub new_evidence_store : EvidenceStore
new_evidence_store = record { seq = 0; packages = [] }

-- The arguments of `Submit`.
pub record Submission : Type 0 where
  pub job_id : String
  pub binding_id : String
  pub summary : String
  pub artifacts : List Artifact
  pub usage : Option UsageReport

abbrev pub package_of : Submission → ℕ → Time → EvidencePackage
package_of x seq now = record {
  id = numbered "ev_" (suc seq);
  job_id = x.job_id;
  binding_id = x.binding_id;
  summary = x.summary;
  artifacts = x.artifacts;
  usage_report = x.usage;
  submitted_at = now;
}

-- `EvidenceStore.Submit`; `none` is the error that the job has evidence.
unfoldable pub submit : Submission → Time → EvidenceStore → Option EvidencePackage × EvidenceStore
unfolding get put
submit x now s = elim (get x.job_id s.packages) [
  | some known ↦ (none, s)
  | none ↦
      let added = package_of x s.seq now in
      (some added, record { seq = suc s.seq; packages = put x.job_id added s.packages })
]

-- `EvidenceStore.Get`
unfoldable pub get_evidence : String → EvidenceStore → Option EvidencePackage
unfolding get
get_evidence job s = get job s.packages

pub record ExecutionProfile : Type 0 where
  pub id : String
  pub name : String
  pub carrier_id : String
  pub host : String
  pub agent : String
  pub backend : String
  pub workspace : String
  pub environment : Dict String
  pub max_timeout : String

-- `ProfileRegistry`
abbrev pub ProfileRegistry : Type 0
ProfileRegistry = Dict ExecutionProfile

-- `ProfileRegistry.Register`
unfoldable pub register : ExecutionProfile → ProfileRegistry → ProfileRegistry
unfolding put
register p r = put p.id p r

-- `ProfileRegistry.Get`
unfoldable pub get_profile : String → ProfileRegistry → Option ExecutionProfile
unfolding get
get_profile id r = get id r

-- `ProfileRegistry.List`
unfoldable pub list_profiles : String → ProfileRegistry → List ExecutionProfile
list_profiles carrier [] = []
list_profiles carrier ((id, p) ∷ r) =
    let rest = list_profiles carrier r in
    if carrier == "" || p.carrier_id == carrier then p ∷ rest else rest

-- `ProfileRegistry.Delete`
unfoldable pub delete_profile : String → ProfileRegistry → ProfileRegistry
delete_profile id [] = []
delete_profile id ((i, p) ∷ r) =
    let rest = delete_profile id r in if i == id then rest else (i, p) ∷ rest
