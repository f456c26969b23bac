-- ===== src/Salsa/Tests.antt =====
-- A hygiene checklist with one failed item at the sample plant.
use qms_bakery.Prelude.{none, some, [], ◌∷◌, List, true}
use qms_bakery.Prelude.Text.{codes}
use qms_bakery.Models.Quality.{SalsaChecklist}
use qms_bakery.World.{World}
use qms_bakery.Salsa.{Entry}
use qms_bakery.Salsa.Submitted.{Submitted}
use qms_bakery.Samples.{plant}

abbrev hygiene : SalsaChecklist
hygiene = record {
  id = 8;
  code = codes "HYG";
  line_id = some 1;
  is_active = true;
  items =
      record { key = codes "hands"; prompt_en = some (codes "Hands washed") }
      ∷ record { key = codes "hair"; prompt_en = none }
      ∷ [];
}

abbrev floor : World
floor = record plant { checklists = hygiene ∷ [] }

-- The second item is not answered.
abbrev half_filled : List Entry
half_filled = record { key = codes "hands"; is_ok = true; comment = some (codes " soap ") } ∷ []
