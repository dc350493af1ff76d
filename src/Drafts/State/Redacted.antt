-- ===== src/Drafts/State/Redacted.antt =====
-- The state that `redact_draft_state_answers` returns.
use Prim.Native.String.{String}
use test_paper_backend.Base.{◌≡◌, refl, ap, ◌∙◌, false, Option, none, some, arith}
use test_paper_backend.Base.Json.{
  Json, obj, arr, null, bool, int, negint, float, str, Items, nil, cons, Fields, end, field,
  get_field,
}
use test_paper_backend.Drafts.State.{
  remove_field, map_field, pop_answer, redact_question, redact_items, redact_questions,
  redact_paper, redact_draft_state_answers, is_there, has_answer, question_answered, some_answered,
  questions_answered, paper_answered, shows_answers,
}

abbrev changed : (Json → Json) → Option Json → Option Json
changed f none = none
changed f (some v) = some (f v)

get_field-remove_field : (key : String) (fs : Fields) → get_field key (remove_field key fs) ≡ none
unfolding get_field remove_field
get_field-remove_field key end = refl
get_field-remove_field key (field k v rest) = ground (arith, get_field-remove_field key rest)

get_field-map_field :
    (key : String) (f : Json → Json) (fs : Fields)
    → get_field key (map_field key f fs) ≡ changed f (get_field key fs)
unfolding get_field map_field
get_field-map_field key f end = refl
get_field-map_field key f (field k v rest) = ground (arith, get_field-map_field key f rest)

-- A key that is not there is not there after another value was changed.
map_field-missing :
    (key other : String) (f : Json → Json) (fs : Fields)
    → get_field key fs ≡ none
    → get_field key (map_field other f fs) ≡ none
unfolding get_field map_field
map_field-missing key other f end h = refl
map_field-missing key other f (field k v rest) h =
    ground (arith, map_field-missing key other f rest)

popped : (o : Option Json) → has_answer (changed pop_answer o) ≡ false
unfolding pop_answer
popped none = refl
popped (some (obj fs)) = ap is_there (get_field-remove_field "answer" fs)
popped (some null) = refl
popped (some (bool b)) = refl
popped (some (int n)) = refl
popped (some (negint n)) = refl
popped (some (float s)) = refl
popped (some (str s)) = refl
popped (some (arr vs)) = refl

question_clean : (v : Json) → question_answered (redact_question v) ≡ false
unfolding redact_question
question_clean (obj fs) =
    let kept = remove_field "answer" fs in
    let first =
      map_field-missing "answer" "originalQuestion" pop_answer kept
        (get_field-remove_field "answer" fs) in
    let second =
      ap has_answer (get_field-map_field "originalQuestion" pop_answer kept)
      ∙ popped (get_field "originalQuestion" kept) in
    ground (arith, first, second)
question_clean null = refl
question_clean (bool b) = refl
question_clean (int n) = refl
question_clean (negint n) = refl
question_clean (float s) = refl
question_clean (str s) = refl
question_clean (arr vs) = refl

items_clean : (vs : Items) → some_answered (redact_items vs) ≡ false
unfolding redact_items
items_clean nil = refl
items_clean (cons v vs) = ground (arith, question_clean v, items_clean vs)

questions_clean : (o : Option Json) → questions_answered (changed redact_questions o) ≡ false
unfolding redact_questions
questions_clean none = refl
questions_clean (some (arr vs)) = items_clean vs
questions_clean (some (obj fs)) = refl
questions_clean (some null) = refl
questions_clean (some (bool b)) = refl
questions_clean (some (int n)) = refl
questions_clean (some (negint n)) = refl
questions_clean (some (float s)) = refl
questions_clean (some (str s)) = refl

paper_clean : (o : Option Json) → paper_answered (changed redact_paper o) ≡ false
unfolding redact_paper
paper_clean none = refl
paper_clean (some (obj fs)) =
    ap questions_answered (get_field-map_field "questions" redact_questions fs)
    ∙ questions_clean (get_field "questions" fs)
paper_clean (some (arr vs)) = refl
paper_clean (some null) = refl
paper_clean (some (bool b)) = refl
paper_clean (some (int n)) = refl
paper_clean (some (negint n)) = refl
paper_clean (some (float s)) = refl
paper_clean (some (str s)) = refl

-- A state that was redacted for a reader who may not read answers shows none: no question of its paper
-- has an answer, nor has the question that it was copied from.
pub redact_draft_state_answers-hides :
    (state : Fields) → shows_answers (redact_draft_state_answers state false) ≡ false
unfolding redact_draft_state_answers
redact_draft_state_answers-hides state =
    ap paper_answered (get_field-map_field "paper" redact_paper state)
    ∙ paper_clean (get_field "paper" state)
