-- ===== src/Healing.antt =====
-- src/durable_agent/healing.py: reading an answer out of a response, and the prompt that asks for
-- a repair. The decoder of `json`, pydantic's validation and the encoder of a fault list are
-- parameters.
pub mod Scan
pub mod Choice
pub mod Whole
use durable_agent_engine.Base.{
  ℕ, Bool, true, false, ◌||◌, Option, none, some, List, [], ◌∷◌, ◌++◌, map, Text, codes, strip,
  join, take, text_eq, if◌then◌else◌,
}
use Scan.{fenced_groups, brace_span, balanced_objects}

abbrev pub max_correction_rounds : ℕ
max_correction_rounds = 2

abbrev pub unparseable_field : Text
unparseable_field = codes "<response>"

-- `received` is any JSON value.
pub record FieldFault (J : Type 0) : Type 0 where
  pub field : Text
  pub problem : Text
  pub received : J

-- One entry of `ValidationError.errors()`; `loc` holds the texts of its parts.
pub record ErrorDetail (J : Type 0) : Type 0 where
  pub loc : List Text
  pub msg : Text
  pub input : J

-- `schema.model_validate`: the object, or the errors of the ValidationError.
pub data Validated (J T : Type 0) : Type 0 where
  valid : T → Validated J T
  invalid : List (ErrorDetail J) → Validated J T

-- The `json` module: `loads` is `none` on a JSONDecodeError; `text` is the JSON string of a text;
-- `dumps` encodes a list of objects.
pub record Json (J : Type 0) : Type 0 where
  pub loads : Text → Option J
  pub text : Text → J
  pub dumps : List (List (Text × J)) → Text

-- A schema: its `__name__` and its validation.
pub record Schema (J T : Type 0) : Type 0 where
  pub name : Text
  pub validate : J → Validated J T

-- The texts that json_candidates tries, in its order.
unfoldable pub seen : Text → List Text
unfolding brace_span balanced_objects fenced_groups
seen text = elim (brace_span text) [
  | none ↦ map strip (fenced_groups text) ++ (strip text ∷ [])
  | some span ↦
      map strip (fenced_groups text) ++ (span ∷ (balanced_objects text ++ (strip text ∷ [])))
]

module _ {J : Type 0} (json : Json J) where
  -- the loop that drops what does not decode
  unfoldable pub decode_all : List Text → List J
  decode_all [] = []
  decode_all (t ∷ ts) =
      let rest = decode_all ts in elim (json.loads t) [ none ↦ rest | some j ↦ j ∷ rest ]

  -- `none` is the exception Unparseable.
  unfoldable pub json_candidates : Text → Option (List J)
  unfolding decode_all seen
  json_candidates text = elim (decode_all (seen text)) [ [] ↦ none | j ∷ js ↦ some (j ∷ js) ]

  unfoldable pub extract_json : Text → Option J
  unfolding json_candidates
  extract_json text = elim (decode_all (seen text)) [ [] ↦ none | j ∷ js ↦ some j ]

  -- `".".join(...) or "<root>"`
  fault_field : Text → Text
  fault_field [] = codes "<root>"
  fault_field (c ∷ t) = c ∷ t

  unfoldable pub faults_from : List (ErrorDetail J) → List (FieldFault J)
  unfolding fault_field
  faults_from [] = []
  faults_from (e ∷ es) =
      record { field = fault_field (join (codes ".") e.loc); problem = e.msg; received = e.input }
      ∷ faults_from es

  unfoldable pub as_dict : FieldFault J → List (Text × J)
  as_dict f =
      (codes "field", json.text f.field)
      ∷ (codes "problem", json.text f.problem)
      ∷ (codes "received", f.received)
      ∷ []

  unfoldable pub correction_prompt : Text → List (FieldFault J) → Text → Text
  unfolding as_dict
  correction_prompt previous faults schema_name =
      codes "CORRECTION for "
      ++ (schema_name
          ++ (codes ".\nYour previous response was:\n"
              ++ (strip previous
                  ++ (codes "\n\nIt failed validation on these fields:\n"
                      ++ (json.dumps (map as_dict faults)
                          ++ codes
                              "\n\nFix ONLY the invalid fields, keep every valid field exactly as it was, and return the complete corrected JSON object.")))))

  unfoldable pub is_unparseable : List (FieldFault J) → Bool
  is_unparseable [] = false
  is_unparseable (f ∷ fs) = text_eq f.field unparseable_field || is_unparseable fs

  unfoldable pub build_retry_prompt : Text → Text → List (FieldFault J) → Text → Text
  unfolding is_unparseable correction_prompt
  build_retry_prompt original previous faults schema_name =
      if is_unparseable faults
      then original
        ++ (codes
              "\n\nERROR: your previous response contained no JSON. Return only a JSON object matching "
            ++ (schema_name ++ codes ", with no surrounding text."))
      else correction_prompt previous faults schema_name

  module _ {T : Type 0} (schema : Schema J T) where
    -- `for data in reversed(values)`: the last value that validates, or the errors of the first
    -- value, which the loop meets last.
    unfoldable pub last_valid : List J → Validated J T
    last_valid [] = Validated.invalid []
    last_valid (j ∷ js) = elim (last_valid js) [
      | valid t ↦ Validated.valid t
      | invalid errors ↦ schema.validate j
    ]

    unfoldable pub unparseable_fault : Text → FieldFault J
    unparseable_fault text = record {
      field = unparseable_field;
      problem = codes "response was not valid JSON";
      received = json.text (take 120 text);
    }

    judged : Validated J T → Option T × List (FieldFault J)
    judged (valid t) = (some t, [])
    judged (invalid errors) = (none, faults_from errors)

    unfoldable pub parse_or_faults : Text → Option T × List (FieldFault J)
    unfolding json_candidates last_valid unparseable_fault judged faults_from
    parse_or_faults text = elim (json_candidates text) [
      | none ↦ (none, unparseable_fault text ∷ [])
      | some values ↦ judged (last_valid values)
    ]
