-- ===== src/Triage/Infer.antt =====
-- The rules of app/triage_service.py on the words of a message, and the questions and the draft that
-- they lead to.
use support_triage_llm.Base.{
  String, Bool, ◌||◌, some, List, [], ◌∷◌, ◌++◌, any, take, str_eq, if◌then◌else◌,
}
use support_triage_llm.Base.Text.{lower, contains, concat, join}
use support_triage_llm.Triage.Payload.{Reported, Reply, text_or}

-- any(token in text for token in tokens)
unfoldable pub mentions : List String → String → Bool
unfolding contains
mentions tokens text = any (λ token. contains token text) tokens

-- `has_email` is EMAIL_PATTERN.search(text).
unfoldable pub infer_case_type : Bool → String → String
unfolding mentions lower
infer_case_type has_email text =
    let s = lower text in
    if mentions ("outage" ∷ "downtime" ∷ "service unavailable" ∷ "site down" ∷ "system down" ∷ []) s
    then "incident"
    else if mentions
        ("webhook" ∷ "integration" ∷ "api" ∷ "sync" ∷ "connector" ∷ "http://" ∷ "https://" ∷ []) s
    then "integration"
    else if mentions ("bounce" ∷ "deliver" ∷ "email" ∷ []) s || has_email
    then "email_delivery"
    else if mentions
        ("mfa" ∷ "2fa" ∷ "otp" ∷ "authenticator" ∷ "login" ∷ "sign-in" ∷ "sign in" ∷ []) s
    then "auth_access"
    else if mentions ("ui" ∷ "button" ∷ "page" ∷ []) s
    then "ui_bug"
    else if mentions ("import" ∷ []) s
    then "data_import"
    else if mentions ("permission" ∷ "access" ∷ []) s
    then "access_permissions"
    else "unknown"

unfoldable pub infer_severity : String → String
unfolding mentions lower
infer_severity text =
    let s = lower text in
    if mentions ("critical" ∷ "urgent" ∷ []) s
    then "critical"
    else if mentions ("outage" ∷ "down" ∷ []) s
    then "high"
    else if mentions ("bounce" ∷ "bounced" ∷ "bouncing" ∷ []) s
    then "high"
    else if mentions ("failed" ∷ "failing" ∷ "error" ∷ "500" ∷ []) s
    then "medium"
    else if mentions ("degraded" ∷ "intermittent" ∷ "slow" ∷ []) s
    then "medium"
    else "low"

-- the questions on the time
unfoldable pub time_questions : Reported → String → List String
unfolding text_or
time_questions r ambiguity =
    let raw = text_or r.raw_text "" in
    if str_eq raw ""
    then "What time window is impacted (start/end in UTC)?" ∷ []
    else concat ("Can you confirm the date (YYYY-MM-DD) for " ∷ raw ∷ "?" ∷ [])
      ∷ (if str_eq ambiguity "missing_timezone" then "What timezone is that time in?" ∷ [] else [])

unfoldable pub domain_questions : List String → List String
unfolding join
domain_questions [] = "Which recipient domains are impacted?" ∷ []
domain_questions (d ∷ ds) =
    concat ("Are all recipients at " ∷ join ", " (d ∷ ds) ∷ " affected?" ∷ [])
    ∷ "Can you share example message IDs and timestamps?"
    ∷ []

-- the questions before the list is cut
unfoldable pub all_questions : List String → Reported → String → List String
unfolding time_questions domain_questions
all_questions domains r ambiguity =
    time_questions r ambiguity
    ++ ("How many users or recipients are affected?"
        ∷ (domain_questions domains
            ++ ("Have there been any recent config or provider changes?" ∷ [])))

unfoldable pub build_missing_questions : List String → Reported → String → List String
unfolding all_questions
build_missing_questions domains r ambiguity = take 6 (all_questions domains r ambiguity)

unfoldable pub subject_note : List String → String
subject_note [] = ""
subject_note (d ∷ ds) = concat (" to " ∷ d ∷ [])

unfoldable pub domain_line : List String → List String
domain_line [] = []
domain_line (d ∷ ds) = concat ("- Are other domains besides " ∷ d ∷ " affected?" ∷ []) ∷ []

unfoldable pub build_draft_reply : List String → Reply
unfolding subject_note domain_line join
build_draft_reply domains = record {
  subject = some (concat ("Quick update on your report" ∷ subject_note domains ∷ []));
  body = some (
      join "\n" (
        "Thanks for letting us know. We are reviewing the issue now."
        ∷ "To help us investigate, could you share:"
        ∷ "- Impacted time window (UTC)"
        ∷ "- Affected users/recipients and examples"
        ∷ "- Any recent configuration or provider changes"
        ∷ domain_line domains));
}
