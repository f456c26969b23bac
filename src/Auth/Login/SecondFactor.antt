-- ===== src/Auth/Login/SecondFactor.antt =====
-- The views of sign-in and the second factor, over any requests.
use qms_bakery.Prelude.{
  ℕ, ◌<◌, ◌≡◌, refl, inl, inr, false, Option, some, List, [], ◌∷◌, option_eq, ==_refl, arith,
}
use qms_bakery.Prelude.Text.{Text}
use qms_bakery.World.{Env, World}
use qms_bakery.Auth.Login.{Browser, Site, Page, login, login_2fa, logout, current_user}
use qms_bakery.Auth.Login.Kept.{HasFactor, passwords, second_codes}
use qms_bakery.Auth.Login.Stands.{
  Enters, Stands, IsOther, login-Stands, with_pending-Stands, logout_for-Stands,
}

-- A request for one of the views of sign-in, at its moment.
pub data Request : Type 0 where
  login_request : Env → Option (Text × Text) → Option Text → Request
  code_request : Env → Option Text → Request
  logout_request : Env → Request

abbrev state_of : Page × Browser × World → Browser × World
state_of (page, b, w) = (b, w)

unfoldable pub serve : Site → Request → Browser × World → Browser × World
serve site (login_request env form next) (b, w) = state_of (login site env form next b w)
serve site (code_request env form) (b, w) = state_of (login_2fa site env form b w)
serve site (logout_request env) (b, w) = state_of (logout site env b w)

unfoldable pub serve_all : Site → List Request → Browser × World → Browser × World
serve_all site [] s = s
serve_all site (r ∷ rs) s = serve_all site rs (serve site r s)

not_both : (o : Option ℕ) (k : ℕ) → o ≡ some k → IsOther k o → ⊥
not_both o k here other = absurd (ground (arith, here, other, ==_refl k))

module _ (site : Site) (enters : Enters site) (k p c : ℕ) where
  serve-Stands :
      (r : Request) (b : Browser) (w : World)
      → Stands k p c b w
      → let (b', w') = serve site r (b, w) in Stands k p c b' w'
  unfolding serve login_2fa logout
  serve-Stands (login_request env form next) b w s =
      login-Stands site enters k p c env form next b w s
  serve-Stands (code_request env form) b w s =
      with_pending-Stands site enters k p c env form b.pending_user_id b w refl s
  serve-Stands (logout_request env) b w s =
      logout_for-Stands site enters k p c env (current_user site env b w) b w s

  serve_all-Stands :
      (rs : List Request) (b : Browser) (w : World)
      → Stands k p c b w
      → let (b', w') = serve_all site rs (b, w) in Stands k p c b' w'
  unfolding serve_all
  serve_all-Stands [] b w s = s
  serve_all-Stands (r ∷ rs) b w s =
      let (b', w') = serve site r (b, w) in serve_all-Stands rs b' w' (serve-Stands r b w s)

-- Take a user whose rows have a second factor, and a browser in which he is neither signed in nor waiting
-- for his code. If any number of requests for the login page, the code page and the logout leave him
-- signed in there, then in the course of them the audit trail has got both a further entry that his
-- password was right and a further entry that his code was right.
pub serve_all-second_factor :
    (site : Site) (rs : List Request) (k : ℕ) (b : Browser) (w : World)
    → Enters site
    → HasFactor k w.users
    → option_eq b.pending_user_id (some k) ≡ false
    → option_eq b.user (some k) ≡ false
    → (serve_all site rs (b, w)).0.user ≡ some k
    → let w' = (serve_all site rs (b, w)).1 in
      (passwords k w < passwords k w') × (second_codes k w < second_codes k w')
serve_all-second_factor site rs k b w enters has not_waiting not_in is_in =
    let stands =
      serve_all-Stands site enters k (passwords k w) (second_codes k w) rs b w
        (has, omega arith, omega arith, inl not_waiting, inl not_in) in
    elim stands.4 [ inl other ↦ absurd (not_both _ k is_in other) | inr both ↦ both ]
