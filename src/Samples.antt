-- ===== src/Samples.antt =====
-- A small plant for the tests: one line with a pipeline, a moment, a configuration, and a sum in
-- place of SHA-256.
use qms_bakery.Prelude.{ℕ, ◌+◌, ◌*◌, true, none, some, [], ◌∷◌}
use qms_bakery.Prelude.Dates.{DateTime}
use qms_bakery.Prelude.Text.{codes, text_eq}
use qms_bakery.Json.{end}
use qms_bakery.Models.Audit.{Payload}
use qms_bakery.Models.Production.{ProductionLine, Pipeline}
use qms_bakery.Models.Tickets.{TicketSeverity, TicketSource, TicketCategory}
use qms_bakery.World.{Config, Env, Request, World}
use qms_bakery.Tickets.{NewTicket}

abbrev pub config : Config
config = record {
  lockout_threshold = 3;
  lockout_minutes = 15;
  recert_lead_days = 30;
  default_pass_threshold = 700;
  default_link_ttl_days = 14;
  base_url = codes "https://qms.example";
}

abbrev pub moment : ℕ → DateTime
moment second = record { year = 2026; month = 3; day = 14; clock = second }

abbrev pub request : Request
request = record {
  user = some 1;
  remote_addr = some (codes "10.0.0.9");
  user_agent = codes "Mozilla";
}

abbrev pub hash : Payload → ℕ
hash p = p.prev * 3 + p.occurred_at + 1

abbrev pub env : Env
env = record {
  clock = moment 3600;
  request = some request;
  config = config;
  sha256 = hash;
  check_password = λ plain hashed. text_eq plain hashed;
  format = λ template fields. some template;
  sign = λ body. codes "5ea1";
  uuid = λ id. codes "uuid";
  float_text = λ n. codes "0.0";
  repr = λ text. text;
  message = λ e. codes "error";
  set_order = λ keys. keys;
  queue_up = true;
}

abbrev pub line : ProductionLine
line = record { id = 1; code = codes "L1"; is_active = true }

abbrev pub pipeline : Pipeline
pipeline = record { id = 2; line_id = 1; version = 1; is_active = true; stages = 3 ∷ 4 ∷ [] }

abbrev pub plant : World
plant = record {
  next_id = 10;
  lines = line ∷ [];
  pipelines = pipeline ∷ [];
  users = [];
  tickets = [];
  ticket_events = [];
  audit_log = [];
  triggers = [];
  executions = [];
  notifications = [];
  gates = [];
  trainees = [];
  courses = [];
  versions = [];
  enrolments = [];
  attempts = [];
  declarations = [];
  certifications = [];
  ccps = [];
  measurements = [];
  checklists = [];
  salsa_responses = [];
  jobs = [];
}

abbrev pub crumbs : NewTicket
crumbs = record {
  line_id = 1;
  title = codes " Crumbs on belt ";
  description = none;
  severity = TicketSeverity.high;
  category = TicketCategory.hygiene;
  source = TicketSource.manual;
  created_by_user_id = some 1;
  metadata = end;
}
