-- ===== src/Healing/Choice.antt =====
-- healing.py, `parse_or_faults`: which value of a response is taken, and whose errors are reported.
use durable_agent_engine.Base.{◌≡◌, Option, none, some, List, [], ◌∷◌, ◌++◌, Text}
use durable_agent_engine.Healing.{
  FieldFault, ErrorDetail, Validated, valid, invalid, Json, Schema, json_candidates,
  unparseable_fault, faults_from,
}

module _ {J T : Type 0} (json : Json J) (schema : Schema J T) where
  -- No value validates.
  abbrev pub AreRefused : List J → Type 0
  AreRefused [] = Unit
  AreRefused (j ∷ js) =
      ((errors : List (ErrorDetail J)) × (schema.validate j ≡ Validated.invalid errors))
      × AreRefused js

  -- The last value of `js` that validates gives `value`.
  pub record IsLast (js : List J) (value : T) : Type 0 where
    pub before : List J
    pub chosen : J
    pub after : List J
    pub split : js ≡ before ++ (chosen ∷ after)
    pub accepts : schema.validate chosen ≡ Validated.valid value
    pub refused : AreRefused after

  abbrev IsChoice : List J → Validated J T → Type 0
  IsChoice js (valid value) = IsLast js value
  IsChoice [] (invalid errors) = Unit
  IsChoice (j ∷ js) (invalid errors) =
      (schema.validate j ≡ Validated.invalid errors) × AreRefused js

  -- What parse_or_faults answers for a text, on each of its branches.
  pub data IsJudged (text : Text) : Option T × List (FieldFault J) → Type 0 where
    unparseable :
        json_candidates json text ≡ none
        → IsJudged text (none, unparseable_fault json schema text ∷ [])
    accepted :
        (values : List J) (value : T)
        → json_candidates json text ≡ some values
        → IsLast values value
        → IsJudged text (some value, [])
    rejected :
        (j : J) (js : List J) (errors : List (ErrorDetail J))
        → json_candidates json text ≡ some (j ∷ js)
        → schema.validate j ≡ Validated.invalid errors
        → AreRefused js
        → IsJudged text (none, faults_from json errors)
