-- ===== src/Settings/Update/Kept.antt =====
-- What an update of the settings leaves (server/src/handlers/admin.rs).
use authere.Base.{
  ◌≡◌, ◌∙◌, ap, refl, Bool, true, false, Option, none, some, ◌≤◌, arith, ltb, inl, inr, Bool-cases,
  unwrap_or,
}
use authere.Base.Text.{Text, same, same_refl}
use authere.Base.Errors.{AppError, Result, ok, err, Result-cases, ◌>>=◌}
use authere.Http.{trim}
use authere.Settings.{
  to_string, validate_base_dn, validate_bind_address, Settings, I64, nonneg, neg, ParseAddress,
  key_open_registration, key_session_expiry_seconds, key_ldap_enabled, key_ldap_base_dn,
  key_ldap_bind_address, key_ldap_password_mode, get_setting, set_setting,
  open_registration_enabled, session_expiry_seconds, validate_session_expiry_seconds, parse_setting,
  default_session_expiry_seconds, is_true, clamp,
}
use authere.Settings.Table.{get_setting-set_setting}
use authere.Settings.Expiry.{parse_i64-to_string}
use authere.Settings.Update.{
  UpdateSettingsInput, LdapSettingsInput, SettingsResponse, when_given, write_expiry, write_base_dn,
  write_bind_address, apply_ldap_input, get_settings, write_settings, update_settings, bool_text,
  plain,
}

-- a write that leaves a key as it was, and a write of one key only
abbrev pub Leaves {ℓ} : {A : Type ℓ} → Text → (A → Settings → Result Settings AppError) → Type ℓ
Leaves {A = A} k write =
    (a : A) (rows after : Settings)
    → write a rows ≡ ok after
    → get_setting k after ≡ get_setting k rows

abbrev pub Sets {ℓ} : {A : Type ℓ} → Text → (A → Settings → Result Settings AppError) → Type ℓ
Sets {A = A} key write =
    (a : A) (rows after : Settings)
    → write a rows ≡ ok after
    → (value : Text) × (after ≡ set_setting key value rows)

Leaves-of_Sets {ℓ} :
    {A : Type ℓ} (key k : Text) (write : A → Settings → Result Settings AppError)
    → same key k ≡ false
    → Sets key write
    → Leaves k write
Leaves-of_Sets key k write other sets a rows after h =
    let (value, e) = sets a rows after h in
    rw (e, get_setting-set_setting key value rows k, other) refl

when_given-Leaves {ℓ} :
    {A : Type ℓ} (k : Text) (write : A → Settings → Result Settings AppError)
    → Leaves k write
    → (o : Option A) (rows after : Settings) → when_given o write rows ≡ ok after
    → get_setting k after ≡ get_setting k rows
when_given-Leaves k write leaves none rows after h = cc
when_given-Leaves k write leaves (some a) rows after h = leaves a rows after h

bind_cases {ℓ κ ν} :
    {A : Type ℓ} {B : Type κ} {E : Type ν} (m : Result A E) (f : A → Result B E) (b : B)
    → (m >>= f) ≡ ok b
    → (a : A) × (m ≡ ok a) × (f a ≡ ok b)
bind_cases (ok a) f b h = (a, refl, h)
bind_cases (err e) f b h = cc

plain-Sets {ℓ} : {A : Type ℓ} (key : Text) (show : A → Text) → Sets key (plain key show)
plain-Sets key show a rows after h = (show a, ground arith)

write_expiry-Sets : Sets key_session_expiry_seconds write_expiry
unfolding write_expiry
write_expiry-Sets a rows after h = elim (Result-cases (validate_session_expiry_seconds a)) [
  | inr (e, bad) ↦ ground arith
  | inl (n, good) ↦ (to_string n, ground arith)
]

write_base_dn-Sets : Sets key_ldap_base_dn write_base_dn
unfolding write_base_dn
write_base_dn-Sets a rows after h = elim (Result-cases (validate_base_dn a)) [
  | inr (e, bad) ↦ ground arith
  | inl (n, good) ↦ (trim a, ground arith)
]

open-same :
    (rows after : Settings)
    → get_setting key_open_registration after ≡ get_setting key_open_registration rows
    → open_registration_enabled after ≡ open_registration_enabled rows
unfolding open_registration_enabled
open-same rows after h = ap is_true h

expiry-same :
    (rows after : Settings)
    → get_setting key_session_expiry_seconds after ≡ get_setting key_session_expiry_seconds rows
    → session_expiry_seconds after ≡ session_expiry_seconds rows
unfolding session_expiry_seconds
expiry-same rows after h =
    ap (λ raw. clamp (unwrap_or (parse_setting raw) (nonneg default_session_expiry_seconds))) h

module _ (parse_address : ParseAddress) where
  write_bind_address-Sets : Sets key_ldap_bind_address (write_bind_address parse_address)
  unfolding write_bind_address
  write_bind_address-Sets a rows after h =
      elim (Result-cases (validate_bind_address parse_address a)) [
        | inr (e, bad) ↦ ground arith
        | inl (n, good) ↦ (trim a, ground arith)
      ]

  apply_ldap_input-Leaves :
      (k : Text)
      → same key_ldap_enabled k ≡ false
      → same key_ldap_base_dn k ≡ false
      → same key_ldap_bind_address k ≡ false
      → same key_ldap_password_mode k ≡ false
      → Leaves k (apply_ldap_input parse_address)
  unfolding apply_ldap_input
  apply_ldap_input-Leaves k enabled dn address mode input rows after h =
      let (r3, h3, last) = bind_cases _ _ after h in
      let (r2, h2, third) = bind_cases _ _ r3 h3 in
      let (r1, first, second) = bind_cases _ _ r2 h2 in
      when_given-Leaves k _ (Leaves-of_Sets _ k _ mode (plain-Sets _ _)) input.password_mode r3
        after last
      ∙ when_given-Leaves k _ (Leaves-of_Sets _ k _ address write_bind_address-Sets)
          input.bind_address r2 r3 third
      ∙ when_given-Leaves k _ (Leaves-of_Sets _ k _ dn write_base_dn-Sets) input.base_dn r1 r2
          second
      ∙ when_given-Leaves k _ (Leaves-of_Sets _ k _ enabled (plain-Sets _ _)) input.enabled rows r1
          first

  -- what a setting reads as after an update: the value given, or what it was
  abbrev Reads : {A : Type 0} → Option A → A → A → Type 0
  Reads none old new = new ≡ old
  Reads (some a) old new = new ≡ a

  bool_text-is_true : (b : Bool) → is_true (some (bool_text b)) ≡ b
  unfolding same
  bool_text-is_true true = refl
  bool_text-is_true false = refl

  open_updated :
      (input : Option Bool) (rows after : Settings)
      → when_given input (plain key_open_registration bool_text) rows ≡ ok after
      → Reads input (open_registration_enabled rows) (open_registration_enabled after)
  unfolding open_registration_enabled
  open_updated none rows after h = let e : rows ≡ after = ground arith in rw (e) refl
  open_updated (some b) rows after h =
      let e : after ≡ set_setting key_open_registration (bool_text b) rows = ground arith in
      rw
        (
          e,
          get_setting-set_setting key_open_registration (bool_text b) rows key_open_registration,
          same_refl key_open_registration,
        )
        (bool_text-is_true b)

  write_expiry-reads :
      (i : I64) (rows after : Settings)
      → write_expiry i rows ≡ ok after
      → nonneg (session_expiry_seconds after) ≡ i
  unfolding write_expiry validate_session_expiry_seconds session_expiry_seconds
  write_expiry-reads (neg n) rows after h = ground arith
  write_expiry-reads (nonneg n) rows after h = elim (Bool-cases (ltb n 300)) [
    | inl short ↦ ground arith
    | inr above ↦ elim (Bool-cases (ltb 31536000 n)) [
      | inl long ↦ ground arith
      | inr below ↦
          let e : after ≡ set_setting key_session_expiry_seconds (to_string n) rows =
            ground arith in
          let read =
            get_setting-set_setting key_session_expiry_seconds (to_string n) rows
              key_session_expiry_seconds in
          let low : 300 ≤ n = ground arith in
          let high : n ≤ 31536000 = ground arith in
          rw (e, read, same_refl key_session_expiry_seconds, parse_i64-to_string n (ground arith))
            (ap nonneg (omega arith))
    ]
  ]

  expiry_updated :
      (input : Option I64) (rows after : Settings)
      → when_given input write_expiry rows ≡ ok after
      → Reads input (nonneg (session_expiry_seconds rows)) (nonneg (session_expiry_seconds after))
  expiry_updated none rows after h = let e : rows ≡ after = ground arith in rw (e) refl
  expiry_updated (some i) rows after h = write_expiry-reads i rows after h

  -- what an update may come to
  pub data IsUpdated (input : UpdateSettingsInput) (rows : Settings)
      : Result SettingsResponse AppError × Settings → Type 0 where
    refused : (e : AppError) → IsUpdated input rows (err e, rows)
    updated :
        (response : SettingsResponse) (after : Settings)
        → Reads input.open_registration
            (open_registration_enabled rows)
            (open_registration_enabled after)
        → Reads input.session_expiry_seconds
            (nonneg (session_expiry_seconds rows))
            (nonneg (session_expiry_seconds after))
        → get_settings parse_address after ≡ ok response
        → IsUpdated input rows (ok response, after)

  ldap-Leaves :
      (k : Text)
      → same key_ldap_enabled k ≡ false
      → same key_ldap_base_dn k ≡ false
      → same key_ldap_bind_address k ≡ false
      → same key_ldap_password_mode k ≡ false
      → (input : Option LdapSettingsInput) (rows after : Settings)
      → when_given input (apply_ldap_input parse_address) rows ≡ ok after
      → get_setting k after ≡ get_setting k rows
  ldap-Leaves k enabled dn address mode =
      when_given-Leaves k (apply_ldap_input parse_address)
        (apply_ldap_input-Leaves k enabled dn address mode)

  -- what the writes of an update leave
  written :
      (input : UpdateSettingsInput) (rows after : Settings)
      → write_settings parse_address input rows ≡ ok after
      → Reads input.open_registration
          (open_registration_enabled rows)
          (open_registration_enabled after)
        × Reads input.session_expiry_seconds
            (nonneg (session_expiry_seconds rows))
            (nonneg (session_expiry_seconds after))
  unfolding write_settings same
  written input rows after h =
      let (r2, h2, ldap) = bind_cases _ _ after h in
      let (r1, opened, expiry) = bind_cases _ _ r2 h2 in
      let open_kept : open_registration_enabled after ≡ open_registration_enabled r1 =
        open-same r1 after (
          ldap-Leaves _ refl refl refl refl input.ldap r2 after ldap
          ∙ when_given-Leaves _ _ (Leaves-of_Sets _ _ _ refl write_expiry-Sets)
              input.session_expiry_seconds r1 r2 expiry) in
      let expiry_kept : session_expiry_seconds after ≡ session_expiry_seconds r2 =
        expiry-same r2 after (ldap-Leaves _ refl refl refl refl input.ldap r2 after ldap) in
      let expiry_first : session_expiry_seconds r1 ≡ session_expiry_seconds rows =
        expiry-same rows r1 (
          when_given-Leaves _ _ (Leaves-of_Sets _ _ _ refl (plain-Sets _ bool_text))
            input.open_registration rows r1 opened) in
      (
        rw (open_kept) (open_updated input.open_registration rows r1 opened),
        rw (expiry_kept, ← expiry_first) (expiry_updated input.session_expiry_seconds r1 r2 expiry),
      )

  -- An update of the settings that fails leaves the table as it was. One that succeeds leaves a
  -- table in which registration is open, and the sessions expire, as the update says, or as before
  -- where it says nothing; and its reply is what the table then reads as.
  pub update_settings-IsUpdated :
      (input : UpdateSettingsInput) (rows : Settings)
      → IsUpdated input rows (update_settings parse_address input rows)
  unfolding update_settings
  update_settings-IsUpdated input rows =
      elim (Result-cases (write_settings parse_address input rows)) [
        | inr (e, bad) ↦ rw (update_settings, bad) (refused e)
        | inl (after, good) ↦ elim (Result-cases (get_settings parse_address after)) [
          | inr (e, bad) ↦ rw (update_settings, good, bad) (refused e)
          | inl (response, read) ↦
              let (opened, expiry) = written input rows after good in
              rw (update_settings, good, read) (updated response after opened expiry read)
        ]
      ]
