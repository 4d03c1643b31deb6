-- ===== src/Oidc/Codes/Exchange.antt =====
-- When an authorization code is exchanged (`consume` of server/src/oidc/codes.rs).
use authere.Base.{
  ℕ, ◌≤◌, ◌<◌, ◌≡◌, ◌↔◌, refl, ap, subst, inl, inr, true, false, Option, none, some, is_some, arith,
  Bool-cases, Option-cases,
}
use authere.Base.Text.{Text, codes, same, same_iff}
use authere.Base.Rows.{
  find, update_where, count_where, find_passes, count_where-of_found, find-update_where,
}
use authere.Oidc.Codes.{
  Code, Codes, ConsumedCode, Claim, has_hash, is_live, consumed_code, verify_pkce_s256, is_refused,
  consume_read, consume_update, consume,
}

-- `code_hash` is a key.
abbrev pub IsKeyed : Codes → Type 0
IsKeyed rows = (hash : Text) → count_where (has_hash hash) rows ≤ 1

module _ (challenge_of : Text → Text) where
  -- What binds a code to its exchange.
  pub record IsBound (now : ℕ) (claim : Claim) (row : Code) : Type 0 where
    pub unconsumed : row.consumed_at ≡ none
    pub unexpired : now < row.expires_at
    pub application : row.application_id ≡ claim.application_id
    pub redirect : row.redirect_uri ≡ claim.redirect_uri
    pub method : row.code_challenge_method ≡ codes "S256"
    pub verifier : verify_pkce_s256 challenge_of claim.code_verifier row.code_challenge ≡ true

  none-of_is_some {ℓ} : {A : Type ℓ} (o : Option A) → is_some o ≡ false → o ≡ none
  none-of_is_some none h = refl
  none-of_is_some (some a) h = cc

  is_refused_sound :
      (now : ℕ) (claim : Claim) (row : Code)
      → is_refused challenge_of now claim row ≡ false
      → IsBound now claim row
  unfolding is_refused
  is_refused_sound now claim row h = record {
    unconsumed = none-of_is_some row.consumed_at (ground arith);
    unexpired = ground arith;
    application = ground arith;
    redirect = (same_iff row.redirect_uri claim.redirect_uri).0 (ground arith);
    method = (same_iff row.code_challenge_method (codes "S256")).0 (ground arith);
    verifier = ground arith;
  }

  is_refused_complete :
      (now : ℕ) (claim : Claim) (row : Code)
      → IsBound now claim row
      → is_refused challenge_of now claim row ≡ false
  unfolding is_refused
  is_refused_complete now claim row b =
      let a = b.unconsumed in
      let a1 = b.unexpired in
      let a2 = b.application in
      let a3 = (same_iff row.redirect_uri claim.redirect_uri).1 b.redirect in
      let a4 = (same_iff row.code_challenge_method (codes "S256")).1 b.method in
      let a5 = b.verifier in ground arith

  consume_read_iff :
      (hash : Text) (now : ℕ) (claim : Claim) (rows : Codes) (row : Code)
      → (consume_read challenge_of hash now claim rows ≡ some row)
        ↔ ((find (has_hash hash) rows ≡ some row) × IsBound now claim row)
  unfolding consume_read
  consume_read_iff hash now claim rows row = elim (Option-cases (find (has_hash hash) rows)) [
    | inl missing ↦ rw missing (λ h. ground arith, λ h. ground arith)
    | inr (r, found) ↦ elim (Bool-cases (is_refused challenge_of now claim r)) [
      | inl refused ↦ (
        λ h. ground arith,
        λ (e, b).
            let same_row : r ≡ row = ground arith in
            let no = is_refused_complete now claim row b in
            ground
              (arith, subst (λ x. is_refused challenge_of now claim x ≡ true) same_row refused),
      )
      | inr passed ↦ (
        λ h.
            let same_row : r ≡ row = ground arith in
            (
              rw (found, same_row) refl,
              subst (IsBound now claim) same_row (is_refused_sound now claim r passed),
            ),
        λ (e, b). ground arith,
      )
    ]
  ]

  is_live-of_IsBound :
      (hash : Text) (now : ℕ) (claim : Claim) (row : Code)
      → same row.code_hash hash ≡ true
      → IsBound now claim row
      → is_live hash now row ≡ true
  is_live-of_IsBound hash now claim row keyed b =
      let a = b.unconsumed in let c = b.unexpired in ground arith

-- The row that has been read is the one that the update takes.
consume_update-of_read :
    (challenge_of : Text → Text) (hash : Text) (now : ℕ) (claim : Claim) (rows : Codes) (row : Code)
    → IsKeyed rows
    → consume_read challenge_of hash now claim rows ≡ some row
    → count_where (is_live hash now) rows ≡ 1
consume_update-of_read challenge_of hash now claim rows row keyed read =
    let (found, b) = (consume_read_iff challenge_of hash now claim rows row).0 read in
    count_where-of_found (has_hash hash) (is_live hash now) rows row (λ r h. ground arith)
      (keyed hash) found
      (is_live-of_IsBound challenge_of hash now claim row
        (find_passes (has_hash hash) rows row found) b)

module _ (hash_code challenge_of : Text → Text) where
  consumed :
      (code : Text) (now : ℕ) (claim : Claim) (rows : Codes) (row : Code)
      → IsKeyed rows
      → consume_read challenge_of (hash_code code) now claim rows ≡ some row
      → (consume hash_code challenge_of code now claim rows).0 ≡ some (consumed_code row)
  unfolding consume consume_update
  consumed code now claim rows row keyed read =
      let one =
        consume_update-of_read challenge_of (hash_code code) now claim rows row keyed read in
      ground arith

  unread :
      (code : Text) (now : ℕ) (claim : Claim) (rows : Codes)
      → consume_read challenge_of (hash_code code) now claim rows ≡ none
      → consume hash_code challenge_of code now claim rows ≡ (none, rows)
  unfolding consume
  unread code now claim rows read = rw (consume, read) refl

  -- With unique code hashes, an exchange succeeds exactly if the code is known, was not consumed
  -- and has not expired, and the client, the redirect URI and the PKCE verifier are those it was
  -- issued for; it returns what was stored with the code.
  pub consume_iff :
      (code : Text) (now : ℕ) (claim : Claim) (rows : Codes) (out : ConsumedCode)
      → IsKeyed rows
      → ((consume hash_code challenge_of code now claim rows).0 ≡ some out) ↔ (
          (row : Code) × (find (has_hash (hash_code code)) rows ≡ some row)
          × IsBound challenge_of now claim row
          × (out ≡ consumed_code row))
  consume_iff code now claim rows out keyed = (
    λ h. elim (Option-cases (consume_read challenge_of (hash_code code) now claim rows)) [
      | inl nothing ↦ let e = ap (λ p. p.0) (unread code now claim rows nothing) in ground arith
      | inr (row, read) ↦
          let done = consumed code now claim rows row keyed read in
          let (found, b) =
            (consume_read_iff challenge_of (hash_code code) now claim rows row).0 read in
          (row, found, b, ground arith)
    ],
    λ (row, found, b, e). rw e (
        consumed code now claim rows row keyed
          ((consume_read_iff challenge_of (hash_code code) now claim rows row).1 (found, b))),
  )

  -- With unique code hashes, a failed exchange changes nothing: it does not use up the code.
  consume_failed :
      (code : Text) (now : ℕ) (claim : Claim) (rows : Codes)
      → IsKeyed rows
      → (consume hash_code challenge_of code now claim rows).0 ≡ none
      → (consume hash_code challenge_of code now claim rows).1 ≡ rows
  consume_failed code now claim rows keyed h =
      elim (Option-cases (consume_read challenge_of (hash_code code) now claim rows)) [
        | inl nothing ↦ ap (λ p. p.1) (unread code now claim rows nothing)
        | inr (row, read) ↦ let done = consumed code now claim rows row keyed read in ground arith
      ]

  consume_after :
      (code : Text) (now : ℕ) (claim : Claim) (rows : Codes) (row : Code)
      → consume_read challenge_of (hash_code code) now claim rows ≡ some row
      → (consume hash_code challenge_of code now claim rows).1
        ≡ update_where
            (is_live (hash_code code) now)
            (λ r. record r { consumed_at = some now })
            rows
  unfolding consume consume_update
  consume_after code now claim rows row read = ground arith

  read_again :
      (hash : Text) (now later : ℕ) (other : Claim) (rows : Codes) (row : Code)
      → find (has_hash hash) rows ≡ some row
      → is_live hash now row ≡ true
      → consume_read challenge_of hash later other
          (update_where (is_live hash now) (λ r. record r { consumed_at = some now }) rows)
        ≡ none
  unfolding consume_read is_refused
  read_again hash now later other rows row found live =
      let seen =
        find-update_where (has_hash hash) (is_live hash now)
          (λ r. record r { consumed_at = some now }) rows (λ r. refl) in
      rw (consume_read, seen, found, live) refl

  -- With unique code hashes, a code that has been exchanged is never exchanged again, by whichever
  -- client and at whatever time.
  pub consume_twice :
      (code : Text) (now later : ℕ) (claim other : Claim) (rows : Codes) (out : ConsumedCode)
      → IsKeyed rows
      → (consume hash_code challenge_of code now claim rows).0 ≡ some out
      → (consume hash_code challenge_of code later other
          (consume hash_code challenge_of code now claim rows).1).0
        ≡ none
  consume_twice code now later claim other rows out keyed h =
      elim (Option-cases (consume_read challenge_of (hash_code code) now claim rows)) [
        | inl nothing ↦ let e = ap (λ p. p.0) (unread code now claim rows nothing) in ground arith
        | inr (row, read) ↦
            let (found, b) =
              (consume_read_iff challenge_of (hash_code code) now claim rows row).0 read in
            let live =
              is_live-of_IsBound challenge_of (hash_code code) now claim row
                (find_passes (has_hash (hash_code code)) rows row found) b in
            rw (consume_after code now claim rows row read) (
              ap (λ p. p.0)
                (unread code later other _
                  (read_again (hash_code code) now later other rows row found live)))
      ]
