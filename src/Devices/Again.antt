-- ===== src/Devices/Again.antt =====
-- A pairing code binds one device: `bind_device` at a code that a bind has consumed.
use gruvax.Base.{
  ℕ, ◌≤◌, ◌≡◌, refl, ◌∙◌, Bool, true, false, Option, none, some, List, [], ◌∷◌, Text, ap, arith,
  Bool-cases, inl, inr,
}
use gruvax.Devices.{
  Device, PairingCode, DeviceState, State, Environment, Refusal, rate_limited, invalid_uuid,
  profile_not_found, Response, refused, summary, find_row, update, Written,
}
use gruvax.Devices.Bind.{
  BindRequest, bind_device, name_of, committed, bind_code, bind_allowed, bind_profile, bind_active,
  answer, is_usable, consume, upsert, no_code,
}

-- A consumed code stays consumed, and an expired one expired.
none_usable :
    (now later : ℕ) (code : Text) (rows : List PairingCode)
    → now ≤ later
    → find_row (is_usable later code) (update (is_usable now code) (consume now) rows) ≡ none
none_usable now later code [] h = refl
none_usable now later code (c ∷ rows) h = elim (Bool-cases (is_usable now code c)) [
  | inl e ↦ ground (arith, e, none_usable now later code rows)
  | inr e ↦ ground (arith, e, none_usable now later code rows)
]

module _ (env : Environment) (body : BindRequest) (s : State) (d : Device)
    (state : DeviceState) where
  -- The codes after a bind that is answered with a device.
  Bound : Response × State → Type 0
  Bound o =
      o.0 ≡ summary d state
      → o.1.codes ≡ update (is_usable env.now body.code) (consume env.now) s.codes

  answer-Bound :
      (s' : State) (o : Option Device)
      → s'.codes ≡ update (is_usable env.now body.code) (consume env.now) s.codes
      → Bound (answer s' o)
  unfolding Bound
  answer-Bound s' none k h = ground (arith, h)
  answer-Bound s' (some e) k h = k

  committed-Bound :
      (s' : State) (o : Option Written)
      → s'.codes ≡ update (is_usable env.now body.code) (consume env.now) s.codes
      → Bound (committed s s' o)
  unfolding Bound
  committed-Bound s' none k h = ground (arith, h)
  committed-Bound s' (some (rows, id)) k h = answer-Bound (record s' { devices = rows }) _ k h

  bind_code-Bound : (p : ℕ) (c : Option PairingCode) → Bound (bind_code env body p s c)
  unfolding Bound
  bind_code-Bound p none h = ground (arith, h)
  bind_code-Bound p (some c) h =
      committed-Bound
        (record s { codes = update (is_usable env.now body.code) (consume env.now) s.codes })
        (upsert env p (name_of body.display_name) c.fingerprint s.devices) refl h

  bind_active-Bound : (p : ℕ) (b : Bool) → Bound (bind_active env body p s b)
  unfolding Bound
  bind_active-Bound p false h = ground (arith, h)
  bind_active-Bound p true h = bind_code-Bound p _ h

  bind_profile-Bound : (p : Option ℕ) → Bound (bind_profile env body s p)
  unfolding Bound
  bind_profile-Bound none h = ground (arith, h)
  bind_profile-Bound (some p) h = bind_active-Bound p _ h

  bind_allowed-Bound : (b : Bool) → Bound (bind_allowed env body s b)
  unfolding Bound
  bind_allowed-Bound false h = ground (arith, h)
  bind_allowed-Bound true h = bind_profile-Bound _ h

  bind_device-Bound : Bound (bind_device env body s)
  unfolding bind_device
  bind_device-Bound = bind_allowed-Bound env.allowed

-- A refusal that changes nothing.
abbrev pub IsRefused : State → Response × State → Type 0
IsRefused s o = (r : Refusal) × (o ≡ (refused r, s))

module _ (env : Environment) (body : BindRequest) (s : State)
    (h : find_row (is_usable env.now body.code) s.codes ≡ none) where
  active-IsRefused : (p : ℕ) (b : Bool) → IsRefused s (bind_active env body p s b)
  active-IsRefused p false = (profile_not_found, refl)
  active-IsRefused p true = (no_code env.now body.code s.codes, ap (bind_code env body p s) h)

  profile-IsRefused : (p : Option ℕ) → IsRefused s (bind_profile env body s p)
  profile-IsRefused none = (invalid_uuid, refl)
  profile-IsRefused (some p) = active-IsRefused p _

  allowed-IsRefused : (b : Bool) → IsRefused s (bind_allowed env body s b)
  allowed-IsRefused false = (rate_limited, refl)
  allowed-IsRefused true = profile-IsRefused _

  bind-IsRefused : IsRefused s (bind_device env body s)
  unfolding bind_device
  bind-IsRefused = allowed-IsRefused env.allowed

-- When a bind is answered with a device, a bind at the same code that is not earlier, whatever its
-- profile and its name, is refused on the state that the first one leaves and changes nothing.
pub bind_device-again :
    (env later : Environment) (body again : BindRequest) (s : State) (d : Device)
    (state : DeviceState)
    → (bind_device env body s).0 ≡ summary d state
    → again.code ≡ body.code
    → env.now ≤ later.now
    → IsRefused (bind_device env body s).1 (bind_device later again (bind_device env body s).1)
unfolding Bound
bind_device-again env later body again s d state h same order =
    bind-IsRefused later again (bind_device env body s).1 (
      ap (λ rows. find_row (is_usable later.now again.code) rows)
        (bind_device-Bound env body s d state h)
      ∙ (ap
            (λ code.
              find_row (is_usable later.now code)
                (update (is_usable env.now body.code) (consume env.now) s.codes))
            same
          ∙ none_usable env.now later.now body.code s.codes order))
