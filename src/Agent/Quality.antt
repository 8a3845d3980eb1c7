-- ===== src/Agent/Quality.antt =====
-- The quality gate (internal/agent/quality/gate.go): whether an answer is judged, and what the
-- model's judgement says. The client, strings.ToLower, json.Unmarshal and the text of the prompt
-- are parameters; logging is left out.
use go_saas_api.Common.{
  ℕ, ◌+◌, String, Bool, true, false, ◌&&◌, ◌||◌, Option, none, some, List, [], ◌∷◌, ltb,
  if◌then◌else◌, any_by, take, drop,
}
use go_saas_api.Common.Bytes.{Bytes, index_of, last_index_of}
use go_saas_api.Common.Bytes.Ascii.{ascii}

pub data AgentRole : Type 0 where
  system coder copywriter critic researcher assistant website_agent architect : AgentRole

-- The scores are only logged.
pub record Evaluation : Type 0 where
  pub regenerate : Bool
  pub reason : Bytes

pub record GateCalls : Type 0 where
  pub to_lower : Bytes → Bytes
  pub unmarshal : Bytes → Option Evaluation
  pub prompt : (request response : Bytes) → Bytes

abbrev pub contains : Bytes → Bytes → Bool
contains part s = elim (index_of part s) [ none ↦ false | some i ↦ true ]

abbrev pub code_words : List String
code_words = "```" ∷ "func " ∷ "def " ∷ "class " ∷ "import " ∷ "const " ∷ "let " ∷ "var " ∷ []

-- Of the response in lower case.
unfoldable pub contains_code : (lower : Bytes) → Bool
unfolding ascii
contains_code lower =
    any_by (λ word. contains (ascii word) lower) code_words
    || contains (ascii "<") lower && contains (ascii ">") lower
    || contains (ascii "{") lower && contains (ascii "}") lower

abbrev pub is_judged_role : AgentRole → Bool
is_judged_role coder = true
is_judged_role architect = true
is_judged_role system = false
is_judged_role copywriter = false
is_judged_role critic = false
is_judged_role researcher = false
is_judged_role assistant = false
is_judged_role website_agent = false

unfoldable pub should_evaluate : (Bytes → Bytes) → AgentRole → (response : Bytes) → Bool
unfolding contains_code
should_evaluate to_lower role response = is_judged_role role && contains_code (to_lower response)

abbrev pub kept : Evaluation
kept = record { regenerate = false; reason = [] }

-- The object from the first brace to the last; `none` is an error.
abbrev object_in : (Bytes → Option Evaluation) → Bytes → Option ℕ → Option ℕ → Option Evaluation
object_in unmarshal raw none last = none
object_in unmarshal raw (some start) none = none
object_in unmarshal raw (some start) (some last) =
    if ltb start last then unmarshal (drop start (take (last + 1) raw)) else none

unfoldable pub parse_evaluation : (Bytes → Option Evaluation) → Bytes → Option Evaluation
unfolding ascii
parse_evaluation unmarshal raw =
    object_in unmarshal raw (index_of (ascii "{") raw) (last_index_of (ascii "}") raw)

abbrev kept_or : Option Evaluation → Evaluation
kept_or none = kept
kept_or (some eval) = eval

-- The model's judgement; a call that fails, or an answer that is no judgement, keeps the response.
unfoldable pub judged : (Bytes → Option Evaluation) → (reply : Option Bytes) → Evaluation
unfolding parse_evaluation
judged unmarshal none = kept
judged unmarshal (some raw) = kept_or (parse_evaluation unmarshal raw)

-- `Evaluate`, given what the client completes a prompt to.
unfoldable pub evaluate :
    GateCalls → (complete : Bytes → Option Bytes) → (request response : Bytes) → Evaluation
unfolding judged
evaluate calls complete request response =
    judged calls.unmarshal (complete (calls.prompt request (take 4000 response)))
