-- ===== src/Flows/Registry.antt =====
-- The flows and their registry: internal/agent/flows/flow.go, onboarding.go, proposal.go,
-- contract.go, codereview.go, and `Detect` of api_integration.go. A confidence is in hundredths.
-- strings.ToLower is applied by the caller of `detect`; what the step of the onboarding is, and how a
-- number and a truth value are kept in metadata, is a parameter.
use go_saas_api.Common.{
  ℕ, ◌+◌, String, Bool, true, false, ◌&&◌, Option, none, some, List, [], ◌∷◌, ◌++◌, ltb, leb, ◌==◌,
  nat_eq, string_eq, if◌then◌else◌, any_by,
}
use go_saas_api.Common.Assoc.{insert}
use go_saas_api.Common.Bytes.{Bytes, index_of, count_byte}
use go_saas_api.Common.Bytes.Ascii.{ascii}
use go_saas_api.Flows.Question.{question_mark}
use go_saas_api.Flows.State.{Metadata, text, other}
use go_saas_api.Flows.State.Update.{Calls, update_state}
pub mod Best

pub data FlowKind : Type 0 where
  onboarding proposal contract code_review api_integration : FlowKind

abbrev pub kind_name : FlowKind → String
kind_name onboarding = "onboarding"
kind_name proposal = "proposal"
kind_name contract = "contract"
kind_name code_review = "code_review"
kind_name api_integration = "api_integration"

abbrev holds : Bytes → Bytes → Bool
holds lower keyword = elim (index_of keyword lower) [ none ↦ false | some i ↦ true ]

unfoldable pub holds_any : Bytes → List Bytes → Bool
unfolding ascii
holds_any lower keywords = any_by (holds lower) keywords

-- "ó" and "ción" in UTF-8
abbrev o_acute : Bytes
o_acute = 195 ∷ 179 ∷ []

abbrev cion : Bytes
cion = ascii "ci" ++ (o_acute ++ ascii "n")

abbrev pub proposal_keywords : List Bytes
proposal_keywords =
    ascii "proposal"
    ∷ ascii "quote"
    ∷ ascii "budget"
    ∷ ascii "presupuesto"
    ∷ (ascii "cotiza" ++ cion)
    ∷ ascii "propuesta"
    ∷ []

abbrev pub contract_keywords : List Bytes
contract_keywords =
    ascii "contract"
    ∷ ascii "agreement"
    ∷ ascii "contrato"
    ∷ ascii "acuerdo"
    ∷ ascii "terms"
    ∷ ascii "nda"
    ∷ []

abbrev pub code_review_keywords : List Bytes
code_review_keywords =
    ascii "code review"
    ∷ ascii "audit"
    ∷ (ascii "revisar c" ++ (o_acute ++ ascii "digo"))
    ∷ ascii "review my code"
    ∷ ascii "audit my"
    ∷ []

abbrev pub onboarding_keywords : List Bytes
onboarding_keywords = ascii "onboard" ∷ ascii "empezar" ∷ ascii "configurar" ∷ []

abbrev pub high_conf : List Bytes
high_conf =
    ascii "api integration"
    ∷ ascii "integrar api"
    ∷ ascii "woocommerce"
    ∷ ascii "shopify"
    ∷ ascii "erp sync"
    ∷ ascii "sincronizar"
    ∷ ascii "conectar"
    ∷ ascii "webhook"
    ∷ ascii "rest api"
    ∷ ascii "graphql"
    ∷ ascii "salesforce"
    ∷ ascii "sap"
    ∷ ascii "zapier"
    ∷ ascii "n8n"
    ∷ ascii "magento"
    ∷ ascii "wordpress"
    ∷ ascii "custom"
    ∷ (ascii "integra" ++ (cion ++ ascii " api"))
    ∷ []

abbrev pub med_conf : List Bytes
med_conf =
    (ascii "integra" ++ cion)
    ∷ ascii "conector"
    ∷ ascii "sync"
    ∷ ascii "api"
    ∷ (ascii "conexi" ++ (o_acute ++ ascii "n"))
    ∷ ascii "conectar sistemas"
    ∷ []

-- Whether the flow matches, and with which confidence.
unfoldable pub detect : FlowKind → (lower : Bytes) → (history_len : ℕ) → Bool × ℕ
unfolding holds_any
detect onboarding lower history_len =
    if history_len == 0
    then (true, 95)
    else if holds_any lower onboarding_keywords
    then (true, 85)
    else (false, 0)
detect proposal lower history_len =
    if holds_any lower proposal_keywords then (true, 85) else (false, 0)
detect contract lower history_len =
    if holds_any lower contract_keywords then (true, 85) else (false, 0)
detect code_review lower history_len =
    if holds_any lower code_review_keywords then (true, 90) else (false, 0)
detect api_integration lower history_len =
    if holds_any lower high_conf
    then (true, 90)
    else if holds_any lower med_conf
    then (true, 85)
    else (false, 0)

-- The better of the best so far and a flow that matched or not.
abbrev pub better : FlowKind → Bool × ℕ → Option FlowKind × ℕ → Option FlowKind × ℕ
better f (matched, score) (best, best_score) =
    if matched && ltb best_score score then (some f, score) else (best, best_score)

unfoldable pub detect_from :
    List FlowKind → (lower : Bytes) → (history_len : ℕ) → Option FlowKind × ℕ → Option FlowKind × ℕ
unfolding detect
detect_from [] lower history_len best = best
detect_from (f ∷ flows) lower history_len best =
    detect_from flows lower history_len (better f (detect f lower history_len) best)

-- `DetectAll`; the flows are given in the order in which the map is ranged over.
unfoldable pub detect_all :
    List FlowKind → (lower : Bytes) → (history_len : ℕ) → Option FlowKind × ℕ
unfolding detect_from
detect_all flows lower history_len = detect_from flows lower history_len (none, 0)

pub record StepCalls : Type 0 where
  pub step_of : Metadata → ℕ
  pub number : ℕ → String
  pub flag : Bool → String

abbrev pub next_step : ℕ → (questions : ℕ) → ℕ
next_step step questions = if ltb 0 questions then step + 1 else step

-- `UpdateState` of each flow.
unfoldable pub flow_state_update : StepCalls → Calls → FlowKind → Metadata → Bytes → Metadata
flow_state_update steps calls onboarding metadata content =
    let step = next_step (steps.step_of metadata) (count_byte question_mark content) in
    insert "flow_completed" (other (steps.flag (leb 3 step)))
      (insert "flow_step" (other (steps.number step)) (insert "flow" (text "onboarding") metadata))
flow_state_update steps calls proposal metadata content = insert "flow" (text "proposal") metadata
flow_state_update steps calls contract metadata content = insert "flow" (text "contract") metadata
flow_state_update steps calls code_review metadata content =
    insert "flow" (text "code_review") metadata
flow_state_update steps calls api_integration metadata content = update_state calls metadata content
