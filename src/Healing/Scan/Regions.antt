-- ===== src/Healing/Scan/Regions.antt =====
-- healing.py, `_balanced_objects`: what its regions are.
use durable_agent_engine.Base.{ℕ, ◌+◌, ◌<◌, Option, none, some, List, [], ◌∷◌, Text, get_elem?, ◌≡◌}
use durable_agent_engine.Healing.Scan.{Scan, slice}

-- A part of the text, from an opening brace to a later closing brace.
pub record IsRegion (text region : Text) : Type 0 where
  pub start : ℕ
  pub stop : ℕ
  pub ordered : start < stop
  pub opens : get_elem? text start ≡ some b'{'
  pub closes : get_elem? text stop ≡ some b'}'
  pub is_slice : region ≡ slice text start (stop + 1)

abbrev pub AreRegions : Text → List Text → Type 0
AreRegions text [] = Unit
AreRegions text (r ∷ rs) = IsRegion text r × AreRegions text rs

module _ (text : Text) where
  -- `start` is an earlier opening brace.
  abbrev IsOpen : ℕ → Option ℕ → Type 0
  IsOpen i none = Unit
  IsOpen i (some k) = (k < i) × (get_elem? text k ≡ some b'{')

  record IsSound (i : ℕ) (s : Scan) : Type 0 where
    regions : AreRegions text s.out
    opened : IsOpen i s.start
