-- ===== src/Client/Escalation.antt =====
-- The second opinion on a verdict of medium confidence: src/analysis-engine/verdict-escalation.ts. The
-- environment flag is an argument; the prompt is left out.
use fixor.Prelude.{
  ℕ, ◌≡◌, ◌≢◌, refl, ap, ◌↔◌, inl, inr, Bool, true, ◌||◌, Option, none, some, String, arith,
  if◌then◌else◌, Bool-cases, or_else, str_eq, kept, eq_iff,
}
use fixor.Client.{opus_4_8, FailReason, Reply, World, CallOptions}
use fixor.Client.Call.{CallResult, ok, failed, fixture_missing, Mode, call_claude, price_of}
use fixor.Client.Attempts.{call_claude-Adds}

-- A tool's input as far as `parseAdjudication` looks at it: fields that are no strings are none.
pub data ToolInput : Type 0 where
  not_object : ToolInput
  object : (decision reasoning : Option String) → ToolInput

pub data EscalationDecision : Type 0 where
  emit_high drop_verdict review_queue : EscalationDecision

-- EscalationDiag, less what it repeats of the parameters.
pub record EscalationDiag : Type 0 where
  pub decision_raw : Option String
  pub decision : EscalationDecision
  pub reasoning : Option String
  pub usd : ℕ
  pub failure : Option FailReason

unfoldable pub map_decision : Option String → EscalationDecision
map_decision none = review_queue
map_decision (some decision) =
    if str_eq decision "promote_to_high"
    then emit_high
    else if str_eq decision "clear"
    then drop_verdict
    else review_queue

abbrev known_decision : Option String → Option String
known_decision none = none
known_decision (some d) =
    if str_eq d "promote_to_high" || (str_eq d "clear" || str_eq d "still_uncertain")
    then some d
    else none

-- The decision and the reasoning.
unfoldable pub parse_adjudication : Option ToolInput → Option String × Option String
parse_adjudication none = (none, none)
parse_adjudication (some not_object) = (none, none)
parse_adjudication (some (object decision reasoning)) = (known_decision decision, reasoning)

abbrev priced : Option ℕ → ℕ
priced cost = or_else cost 0

-- What the call's result comes to; a throw passes through.
unfoldable pub adjudicate : CallResult ToolInput → Option EscalationDiag
unfolding map_decision parse_adjudication price_of
adjudicate (ok tool_input text usage) = some (record {
  decision_raw = (parse_adjudication tool_input).0;
  decision = map_decision (parse_adjudication tool_input).0;
  reasoning = (parse_adjudication tool_input).1;
  usd = priced (price_of opus_4_8 usage);
  failure = none;
})
adjudicate (failed reason) = some (record {
  decision_raw = none;
  decision = map_decision none;
  reasoning = none;
  usd = 0;
  failure = some reason;
})
adjudicate fixture_missing = none

-- Text concatenation.
abbrev append : String → String → String
append String.[] t = t
append (String.◌∷◌ c s) t = String.◌∷◌ c (append s t)

abbrev pub escalation_options : String → CallOptions
escalation_options detector_id = record {
  model = opus_4_8;
  caller_id = some (append "escalation:" detector_id);
  is_auxiliary = true;
}

-- What the hook answers, what it sets as diagnostics, and the state after it.
pub record Resolved : Type 0 where
  pub answer : Option EscalationDecision
  pub diag : Option EscalationDiag
  pub after : World

decided : Option EscalationDiag → Option EscalationDecision
decided none = none
decided (some diag) = some diag.decision

unfoldable pub resolve_medium_verdict :
    (enabled : Bool)
    → String
    → (ℕ → Reply ToolInput)
    → Mode ToolInput
    → (has_client : Bool) → World
    → Resolved
unfolding adjudicate decided
resolve_medium_verdict enabled detector_id replies mode has_client w =
    let out = call_claude (escalation_options detector_id) replies mode has_client w in
    if enabled
    then record { answer = decided (adjudicate out.0); diag = adjudicate out.0; after = out.1 }
    else record { answer = some review_queue; diag = none; after = w }

-- The decision that a result carries, whatever it is.
abbrev pub decision_in : CallResult ToolInput → Option String
decision_in (ok (some (object decision reasoning)) text usage) = decision
decision_in _ = none

abbrev decision_of : CallResult ToolInput → Option EscalationDecision
decision_of r = decided (adjudicate r)

words_differ : ◌≢◌ {A = String} "promote_to_high" "clear"
words_differ e = ground (arith, (eq_iff "promote_to_high" "clear").1 e)

map_decision-known :
    (d : String)
    → ((map_decision (known_decision (some d)) ≡ emit_high) ↔ (d ≡ "promote_to_high"))
      × ((map_decision (known_decision (some d)) ≡ drop_verdict) ↔ (d ≡ "clear"))
unfolding map_decision
map_decision-known d =
    ground (
      arith,
      words_differ,
      eq_iff d "promote_to_high",
      eq_iff d "clear",
      eq_iff d "still_uncertain",
    )

decision_of_iff :
    (r : CallResult ToolInput)
    → ((decision_of r ≡ some emit_high) ↔ (decision_in r ≡ some "promote_to_high"))
      × ((decision_of r ≡ some drop_verdict) ↔ (decision_in r ≡ some "clear"))
unfolding adjudicate decided map_decision parse_adjudication
decision_of_iff (ok none text usage) = ground arith
decision_of_iff (ok (some not_object) text usage) = ground arith
decision_of_iff (ok (some (object none reasoning)) text usage) = ground arith
decision_of_iff (ok (some (object (some d) reasoning)) text usage) =
    ground (arith, map_decision-known d)
decision_of_iff (failed reason) = ground arith
decision_of_iff fixture_missing = ground arith

module _ (enabled : Bool) (id : String) (replies : ℕ → Reply ToolInput) (mode : Mode ToolInput)
    (has_client : Bool) (w : World) where
  -- A verdict of medium confidence is emitted exactly if the flag is set and the call came back with the
  -- decision promote_to_high, and dropped exactly if it is set and it came back with clear: any failure,
  -- refusal or other input leaves it in the review queue. The coverage tally is as before in every case.
  pub moved_by_decision :
      let out = call_claude (escalation_options id) replies mode has_client w in
      let r = resolve_medium_verdict enabled id replies mode has_client w in
      ((r.answer ≡ some emit_high)
        ↔ ((enabled ≡ true) × (decision_in out.0 ≡ some "promote_to_high")))
      × ((r.answer ≡ some drop_verdict) ↔ ((enabled ≡ true) × (decision_in out.0 ≡ some "clear")))
      × (r.after.coverage ≡ w.coverage)
  unfolding resolve_medium_verdict
  moved_by_decision =
      let out = call_claude (escalation_options id) replies mode has_client w in
      let says = decision_of_iff out.0 in
      let same : out.1.coverage ≡ w.coverage =
        elim (call_claude-Adds (escalation_options id) replies mode has_client w) [
          | inl (threw', kept) ↦ ap (λ v. v.coverage) kept
          | inr (adds, most) ↦ adds.1
        ] in
      elim (Bool-cases enabled) [
        | inl yes' ↦ rw yes' (ground (arith, says), ground (arith, says), same)
        | inr no' ↦ rw no' (ground arith, ground arith, refl)
      ]
