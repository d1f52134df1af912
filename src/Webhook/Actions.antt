-- ===== src/Webhook/Actions.antt =====
-- Which pull_request deliveries start a scan: src/integrations/github/pr-action-filter.ts.
use fixor.Prelude.{
  Bool, true, false, ◌&&◌, Option, none, some, List, [], ◌∷◌, String, if◌then◌else◌, str_eq,
  includes,
}
use fixor.Webhook.{Json, text, object, field}

pub data PullRequestSkipReason : Type 0 where
  action_not_scanned edited_without_base_change action_unrecognized action_missing :
      PullRequestSkipReason

pub data PullRequestScanDecision : Type 0 where
  scan : (action : String) → PullRequestScanDecision
  skip : (action : Option String) → PullRequestSkipReason → PullRequestScanDecision

abbrev pub scanned_actions : List String
scanned_actions = "opened" ∷ "synchronize" ∷ "reopened" ∷ []

abbrev non_code_actions : List String
non_code_actions =
    "assigned" ∷ "unassigned" ∷ "labeled" ∷ "unlabeled" ∷ "review_requested"
    ∷ "review_request_removed" ∷ "milestoned" ∷ "demilestoned" ∷ "locked" ∷ "unlocked"
    ∷ "auto_merge_enabled" ∷ "auto_merge_disabled" ∷ "enqueued" ∷ "dequeued" ∷ "converted_to_draft"
    ∷ "ready_for_review" ∷ "closed" ∷ []

abbrev pub is_record : Option Json → Bool
is_record (some (object ms)) = true
is_record _ = false

-- The decision on an action that is a text.
unfoldable pub decide_action : String → Json → PullRequestScanDecision
decide_action action payload =
    let changes = field "changes" (some payload) in
    if includes action scanned_actions
    then scan action
    else if str_eq action "edited"
    then if is_record changes && is_record (field "base" changes)
      then scan action
      else skip (some action) edited_without_base_change
    else skip (some action)
        (if includes action non_code_actions then action_not_scanned else action_unrecognized)

unfoldable pub decide_field : Option Json → Json → PullRequestScanDecision
unfolding decide_action
decide_field (some (text action)) payload = decide_action action payload
decide_field _ payload = skip none action_missing

unfoldable pub decide_pull_request_scan : Json → PullRequestScanDecision
unfolding decide_field
decide_pull_request_scan payload = decide_field (field "action" (some payload)) payload
