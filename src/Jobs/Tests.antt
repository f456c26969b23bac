-- ===== src/Jobs/Tests.antt =====
-- A network with one public and one private host.
use qms_bakery.Prelude.{◌≡◌, refl, true, false, none, some, [], ◌∷◌, if◌then◌else◌}
use qms_bakery.Prelude.Text.{codes, text_eq}
use qms_bakery.Prelude.Url.{urlparse, split_scheme, url_text, scheme_split, hostname}
use qms_bakery.Json.{end}
use qms_bakery.Jobs.{
  Address, Net, Worker, unsafe_url, post_webhook, send_sms, validate_outbound_url,
  is_safe_outbound_host,
}
use qms_bakery.Jobs.Guarded.{Guarded, post_webhook-Guarded}
use qms_bakery.Jobs.Texted.{Texted, send_sms-Texted}

abbrev public_address : Address
public_address = record {
  is_loopback = false;
  is_link_local = false;
  is_private = false;
  is_reserved = false;
  is_multicast = false;
  is_unspecified = false;
}

abbrev metadata_address : Address
metadata_address = record public_address { is_link_local = true }

abbrev net : Net
net = record {
  getaddrinfo = λ host.
      if text_eq host (codes "bakery.pl")
      then some (some public_address ∷ [])
      else some (some metadata_address ∷ []);
  redirected = λ out. [];
  status = λ out. some 200;
  dumps = λ payload. codes "{}";
  hmac = λ secret body. codes "5ea1";
  time = codes "1767225600";
}

abbrev idle : Worker
idle = record { sent = []; retries_left = some 3 }

post_webhook-Guarded_example :
    Guarded net
      (codes "https://Bakery.pl:443/hook")
      end
      none
      false
      idle
      (post_webhook net (codes "https://Bakery.pl:443/hook") end none false idle)
post_webhook-Guarded_example =
    post_webhook-Guarded net (codes "https://Bakery.pl:443/hook") end none false idle

metadata_refused :
    (post_webhook net (codes "http://169.254.169.254/") end none false idle).0 ≡ unsafe_url
unfolding post_webhook validate_outbound_url urlparse split_scheme url_text scheme_split hostname
    is_safe_outbound_host
metadata_refused = refl

send_sms-Texted_example :
    Texted net
      (codes "+48500100200" ∷ [])
      (codes "link")
      (codes "u")
      (codes "k")
      (codes "QMS")
      (codes "https://rest.clicksend.com/v3/")
      idle
      (send_sms net
        (codes "+48500100200" ∷ [])
        (codes "link")
        (codes "u")
        (codes "k")
        (codes "QMS")
        (codes "https://rest.clicksend.com/v3/")
        idle)
send_sms-Texted_example =
    send_sms-Texted net (codes "+48500100200" ∷ []) (codes "link") (codes "u") (codes "k")
      (codes "QMS") (codes "https://rest.clicksend.com/v3/") idle
