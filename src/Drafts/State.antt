-- ===== src/Drafts/State.antt =====
-- `redact_draft_state_answers` of testpaper_backend/services/drafts.py: readers without the permission
-- get the state of a draft without the answers.
pub mod Redacted
use Prim.Native.String.{String}
use text.Mathlib.Text.{◌==◌}
use test_paper_backend.Base.{Bool, true, false, ◌||◌, Option, none, some, if◌then◌else◌}
use test_paper_backend.Base.Json.{Json, obj, arr, Items, nil, cons, Fields, end, field, get_field}

-- `d.pop(key, None)`
unfoldable pub remove_field : String → Fields → Fields
remove_field key end = end
remove_field key (field k v rest) =
    let below = remove_field key rest in if k == key then below else field k v below

-- The value at a key is changed in place.
unfoldable pub map_field : String → (Json → Json) → Fields → Fields
map_field key f end = end
map_field key f (field k v rest) =
    let below = map_field key f rest in if k == key then field k (f v) rest else field k v below

-- `original.pop("answer", None)`, for a dict
unfoldable pub pop_answer : Json → Json
pop_answer (obj fs) = obj (remove_field "answer" fs)
pop_answer v = v

-- The body of the loop over the questions.
unfoldable pub redact_question : Json → Json
redact_question (obj fs) = obj (map_field "originalQuestion" pop_answer (remove_field "answer" fs))
redact_question v = v

unfoldable pub redact_items : Items → Items
redact_items nil = nil
redact_items (cons v vs) = cons (redact_question v) (redact_items vs)

unfoldable pub redact_questions : Json → Json
redact_questions (arr vs) = arr (redact_items vs)
redact_questions v = v

unfoldable pub redact_paper : Json → Json
redact_paper (obj fs) = obj (map_field "questions" redact_questions fs)
redact_paper v = v

unfoldable pub redact_draft_state_answers : Fields → Bool → Fields
redact_draft_state_answers state true = state
redact_draft_state_answers state false = map_field "paper" redact_paper state

-- A test that goes down the state on its own: does some question, or the question it was copied from,
-- have an answer?
abbrev pub is_there : Option Json → Bool
is_there none = false
is_there (some v) = true

abbrev pub has_answer : Option Json → Bool
has_answer (some (obj fs)) = is_there (get_field "answer" fs)
has_answer _ = false

abbrev pub question_answered : Json → Bool
question_answered (obj fs) =
    is_there (get_field "answer" fs) || has_answer (get_field "originalQuestion" fs)
question_answered _ = false

abbrev pub some_answered : Items → Bool
some_answered nil = false
some_answered (cons v vs) = question_answered v || some_answered vs

abbrev pub questions_answered : Option Json → Bool
questions_answered (some (arr vs)) = some_answered vs
questions_answered _ = false

abbrev pub paper_answered : Option Json → Bool
paper_answered (some (obj fs)) = questions_answered (get_field "questions" fs)
paper_answered _ = false

abbrev pub shows_answers : Fields → Bool
shows_answers state = paper_answered (get_field "paper" state)
