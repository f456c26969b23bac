-- ===== src/Haccp/Tests.antt =====
-- An oven at the sample plant, measured too hot.
use qms_bakery.Prelude.{none, some, [], ◌∷◌, true}
use qms_bakery.Prelude.Int.{pos}
use qms_bakery.Prelude.Text.{codes}
use qms_bakery.Models.Quality.{CcpDefinition}
use qms_bakery.World.{World}
use qms_bakery.Haccp.{NewMeasurement}
use qms_bakery.Samples.{plant}

abbrev core_temperature : CcpDefinition
core_temperature = record {
  id = 8;
  line_id = 1;
  code = codes "CCP1";
  parameter = codes "temperature";
  unit = codes "C";
  critical_limit_min = some (pos 94000);
  critical_limit_max = none;
  is_active = true;
}

abbrev kitchen : World
kitchen = record plant { ccps = core_temperature ∷ [] }

abbrev too_cold : NewMeasurement
too_cold = record {
  ccp_id = 8;
  value = pos 88000;
  measured_by_user_id = some 1;
  device_id = none;
  notes = none;
}
