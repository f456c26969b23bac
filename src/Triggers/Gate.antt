-- ===== src/Triggers/Gate.antt =====
-- app/services/trigger_state.py: the duration gate. A key that has expired is absent.
use qms_bakery.Prelude.{
  ℕ, ◌+◌, ◌*◌, ◌<◌, ◌≡◌, refl, ap, Bool, true, false, not, ◌&&◌, Option, none, some, List, [], ◌∷◌,
  ◌++◌, find, keep, ltb, leb, ◌==◌, if◌then◌else◌, arith, Bool-cases, inl, inr, ◌⊎◌,
}
use qms_bakery.Prelude.Text.{Text, codes, text_eq, text_eq_refl, is_blank}
use qms_bakery.Models.Triggers.{Gate}
use qms_bakery.World.{Env, World, now}

-- `scope or "global"`
abbrev pub gate_scope : Option Text → Text
gate_scope none = codes "global"
gate_scope (some s) = if is_blank s then codes "global" else s

abbrev is_key : ℕ → Text → Gate → Bool
is_key trigger scope g = (g.trigger_id == trigger) && text_eq g.scope scope

-- `r.get(key)`
abbrev pub live_gate : Env → ℕ → Text → World → Option Gate
live_gate env trigger scope w =
    find (λ g. is_key trigger scope g && ltb (now env) g.expires) w.gates

-- `r.delete(key)`
abbrev pub delete_gate : ℕ → Text → World → World
delete_gate trigger scope w = record w { gates = keep (λ g. not (is_key trigger scope g)) w.gates }

-- `max(int(duration_seconds) * 3, 60)`
abbrev pub ttl : ℕ → ℕ
ttl duration = if ltb (duration * 3) 60 then 60 else duration * 3

abbrev pub opened : Env → ℕ → Text → ℕ → Gate
opened env trigger scope duration = record {
  trigger_id = trigger;
  scope = scope;
  first_true = now env;
  expires = now env + ttl duration;
}

-- `r.setex(key, ttl, now)`
abbrev pub set_gate : Gate → World → World
set_gate g w = record w {
  gates = keep (λ h. not (is_key g.trigger_id g.scope h)) w.gates ++ g ∷ [];
}

abbrev pub gate_step : Env → ℕ → Text → ℕ → Option Gate → World → Bool × World
gate_step env trigger scope duration none w =
    (false, set_gate (opened env trigger scope duration) w)
gate_step env trigger scope duration (some g) w =
    if leb (g.first_true + duration) (now env)
    then (true, delete_gate trigger scope w)
    else (false, w)

-- `should_fire_with_duration`
unfoldable pub should_fire : Env → ℕ → Option Text → ℕ → World → Bool × World
should_fire env trigger scope duration w =
    gate_step env trigger (gate_scope scope) duration (live_gate env trigger (gate_scope scope) w) w

-- `reset_duration_state`
abbrev pub reset_gate : ℕ → Option Text → World → World
reset_gate trigger scope w = delete_gate trigger (gate_scope scope) w

find-set :
    (trigger : ℕ) (scope : Text) (at : ℕ) (g : Gate) (gs : List Gate)
    → g.trigger_id ≡ trigger
    → g.scope ≡ scope
    → at < g.expires
    → find
        (λ h. is_key trigger scope h && ltb at h.expires)
        (keep (λ h. not (is_key trigger scope h)) gs ++ g ∷ [])
      ≡ some g
find-set trigger scope at g [] same_trigger same_scope lives =
    ground (arith, text_eq_refl scope, same_scope)
find-set trigger scope at g (h ∷ gs) same_trigger same_scope lives =
    ground (arith, find-set trigger scope at g gs same_trigger same_scope lives)

find-deleted :
    (trigger : ℕ) (scope : Text) (at : ℕ) (gs : List Gate)
    → find
        (λ h. is_key trigger scope h && ltb at h.expires)
        (keep (λ h. not (is_key trigger scope h)) gs)
      ≡ none
find-deleted trigger scope at [] = refl
find-deleted trigger scope at (h ∷ gs) = ground (arith, find-deleted trigger scope at gs)

pub should_fire-at :
    (env : Env) (trigger : ℕ) (scope : Option Text) (duration : ℕ) (w : World) (o : Option Gate)
    → live_gate env trigger (gate_scope scope) w ≡ o
    → should_fire env trigger scope duration w
      ≡ gate_step env trigger (gate_scope scope) duration o w
unfolding should_fire
should_fire-at env trigger scope duration w o h =
    ap (λ (g : Option Gate). gate_step env trigger (gate_scope scope) duration g w) h

-- The duration gate. A true reading where no key lives never fires. While the key that it writes
-- lives (three durations, or a minute), a later true reading fires exactly if at least the duration
-- has passed; if it does not fire it changes nothing, and if it fires no key is left.
pub should_fire_lem :
    (env env' : Env) (trigger : ℕ) (scope : Option Text) (duration : ℕ) (w : World)
    → live_gate env trigger (gate_scope scope) w ≡ none
    → now env' < now env + ttl duration
    → let (fires, w') = should_fire env trigger scope duration w in
      let (fires', w'') = should_fire env' trigger scope duration w' in
      (fires ≡ false)
      × (fires' ≡ leb (now env + duration) (now env'))
      × ((fires' ≡ false) × (w'' ≡ w')
          ⊎ (fires' ≡ true) × (live_gate env' trigger (gate_scope scope) w'' ≡ none))
should_fire_lem env env' trigger scope duration w absent lives =
    let key = gate_scope scope in
    let g = opened env trigger key duration in
    let found = find-set trigger key (now env') g w.gates refl refl lives in
    rw
      (
        should_fire-at env trigger scope duration w none absent,
        should_fire-at env' trigger scope duration (set_gate g w) (some g) found,
      )
      (elim (Bool-cases (leb (now env + duration) (now env'))) [
        | inl long ↦
            rw long
              (refl, refl, inr (refl, find-deleted trigger key (now env') (set_gate g w).gates))
        | inr short ↦ rw short (refl, refl, inl (refl, refl))
      ])
