-- ===== src/Gateway/Commands.antt =====
-- internal/gateway/carrier_award_executor.go: the milestone that an award runs, and the texts that the
-- carrier gets. The order and the milestone are there (Go's nil is not modelled), the script of the
-- callback is a parameter, and the path of the report is an argument.
use Prim.Native.Char.{code}
use tok.Prelude.{
  Bool, not, ◌&&◌, Option, some, none, List, [], ◌∷◌, String, ◌==◌, if◌then◌else◌, eqb,
}
use tok.Prelude.Blank.{is_blank}
use tok.Prelude.Trim.{trim}
use tok.Prelude.Format.{◌<>◌}
use tok.Core.Types.{Order, Milestone, is_running, is_settled}
use tok.Platform.Types.{Rfq}

abbrev first_running : List Milestone → Option Milestone
first_running [] = none
first_running (m ∷ ms) = if is_running m.state then some m else first_running ms

abbrev first_unsettled : List Milestone → Option Milestone
first_unsettled [] = none
first_unsettled (m ∷ ms) = if not (is_settled m.state) then some m else first_unsettled ms

-- `runningMilestone`
unfoldable pub running_milestone : Order → Option Milestone
running_milestone o = elim (first_running o.milestones) [
  | some m ↦ some m
  | none ↦ first_unsettled o.milestones
]

-- `firstNonEmptyString`
unfoldable pub first_non_empty_string : List String → String
unfolding is_blank trim
first_non_empty_string [] = ""
first_non_empty_string (s ∷ ss) = if is_blank s then first_non_empty_string ss else trim s

-- `carrierStdoutPath` and `carrierStderrPath`
unfoldable pub carrier_stdout_path : String → String
unfolding trim
carrier_stdout_path report = trim report <> ".stdout.log"

unfoldable pub carrier_stderr_path : String → String
unfolding trim
carrier_stderr_path report = trim report <> ".stderr.log"

-- `carrierJobInput`
unfoldable pub carrier_job_input : Rfq → Order → Milestone → String
unfolding is_blank
carrier_job_input rfq o m =
    if is_blank rfq.scope
    then o.id <> " :: " <> m.title
    else o.id <> " :: " <> m.title <> " :: " <> rfq.scope

abbrev titled : Order → List Milestone → String
titled o [] = o.id
titled o (m ∷ ms) = if is_blank m.title then o.id else m.title

-- `orderTitle`
unfoldable pub order_title : Order → String
unfolding is_blank
order_title o = titled o o.milestones

-- `buildCarrierPrompt`
unfoldable pub build_carrier_prompt : Rfq → Order → Milestone → String
unfolding first_non_empty_string order_title
build_carrier_prompt rfq o m =
    "You are the awarded provider on 1 Tok.\n"
    <> "Produce a concise buyer-facing delivery note in markdown.\n"
    <> "Sections: Summary, Findings, Recommendation.\n"
    <> "Keep it under 500 words.\n"
    <> "Do not browse the web or use external network tools.\n"
    <> "Work only from the request brief and your general knowledge.\n"
    <> "If a detail is uncertain, label it as a directional recommendation instead of a verified fact.\n\n"
    <> "Request title: "
    <> trim (first_non_empty_string (rfq.title ∷ order_title o ∷ []))
    <> "\n"
    <> (if trim rfq.scope == "" then "" else "Scope: " <> trim rfq.scope <> "\n")
    <> "Milestone: "
    <> trim m.title
    <> "\n"
    <> "Return only the delivery note markdown."

-- `strings.ReplaceAll` of a quote by a quote, a backslash and two quotes.
unfoldable pub escape_quotes : String → String
escape_quotes String.[] = ""
escape_quotes (String.◌∷◌ c s) =
    let rest = escape_quotes s in
    if eqb (code c) 39
    then String.◌∷◌ "'" (String.◌∷◌ "\\" (String.◌∷◌ "'" (String.◌∷◌ "'" rest)))
    else String.◌∷◌ c rest

-- `shellQuote`
unfoldable pub shell_quote : String → String
unfolding escape_quotes
shell_quote value = if value == "" then "''" else String.◌∷◌ "'" (escape_quotes value <> "'")

-- `carrierReportCallbackConfig`
pub record CallbackConfig : Type 0 where
  pub base_url : String
  pub binding_id : String
  pub job_id : String
  pub report_path : String
  pub callback_secret : String
  pub callback_key_id : String

-- `Enabled`
unfoldable pub is_enabled : CallbackConfig → Bool
unfolding is_blank
is_enabled c =
    not (is_blank c.base_url)
    && not (is_blank c.binding_id)
    && not (is_blank c.job_id)
    && not (is_blank c.report_path)
    && not (is_blank c.callback_secret)

-- `buildCarrierRunCommand`; `script` is the text of the callback's program.
unfoldable pub build_carrier_run_command :
    (CallbackConfig → String) → String → String → String → CallbackConfig → String
unfolding shell_quote is_enabled
build_carrier_run_command script directory report prompt config =
    let callback =
      if is_enabled config then "; node -e " <> shell_quote (trim (script config)) else "" in
    "bash -lc "
    <> shell_quote (
        "set -e; export HOME=/home/carrier; export CODEX_HOME=/home/carrier/.codex; "
        <> ". /home/carrier/.bash_profile >/dev/null 2>&1 || true; mkdir -p "
        <> shell_quote directory
        <> "; cd "
        <> shell_quote directory
        <> "; codex exec --cd "
        <> shell_quote directory
        <> " --skip-git-repo-check --full-auto --output-last-message "
        <> shell_quote report
        <> " "
        <> shell_quote prompt
        <> callback)
