-- ===== src/RateLimit/Tests.antt =====
-- Three sign-ins of one client in a minute that allows two.
use qms_bakery.Prelude.{◌≡◌, refl, List, [], ◌∷◌, arith}
use qms_bakery.Prelude.Text.{codes}
use qms_bakery.RateLimit.{incr, expire, counted, check}
use qms_bakery.RateLimit.Window.Refines.{verdicts, promised, no_requests, verdicts-promised}
use qms_bakery.RateLimit.Window.{Hit, admitted, key_of}

abbrev sign_in : Hit
sign_in = record { bucket = codes "login"; ident = codes "10.0.0.9"; at = 125 }

abbrev sign_ins : List Hit
sign_ins = sign_in ∷ record sign_in { at = 130 } ∷ record sign_in { at = 179 } ∷ []

two_pass : admitted 2 60 (key_of 60 sign_in) sign_ins [] ≡ 2
unfolding admitted check counted incr expire
two_pass = refl

verdicts-promised_example : verdicts 2 60 sign_ins [] ≡ promised 2 60 sign_ins no_requests
verdicts-promised_example = verdicts-promised 2 60 sign_ins (omega arith)
