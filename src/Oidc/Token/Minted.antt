-- ===== src/Oidc/Token/Minted.antt =====
-- The tokens that `mint_token_pair` of server/src/oidc/token.rs makes, and the check of access tokens.
use authere.Base.{ℕ, ◌+◌, ◌-◌, ◌≤◌, ◌≡◌, some, unwrap_or}
use authere.Base.Text.{Text}
use authere.Application.{Application}
use authere.Oidc.Codes.{max_i64}
use authere.Oidc.Token.{TokenResponse, Signer, Subject, Origin, oidc_claims, minted_claims}

module _ (signer : Signer) (jti : Text) (now : ℕ) (app : Application) (subject : Subject)
    (o : Origin) where
  -- Tokens that are signed for the client of the application, for the user and the session, and that
  -- end within the hour and with the session.
  pub record IsMinted (response : TokenResponse) : Type 0 where
    pub client_id : Text
    pub client : app.oidc_client_id ≡ some client_id
    pub id_token :
        signer.encode_id (minted_claims signer client_id now subject o) ≡ some response.id_token
    pub access_token :
        signer.encode_access (
          oidc_claims signer jti now subject.user.id client_id subject.scope o.session_version
            o.session_exp)
        ≡ some response.access_token
    pub id_ends :
        ((minted_claims signer client_id now subject o).exp ≤ unwrap_or o.session_exp max_i64)
        × ((minted_claims signer client_id now subject o).exp ≤ now + 3600)
    pub access_ends :
        ((oidc_claims signer jti now subject.user.id client_id subject.scope o.session_version
            o.session_exp).exp
          ≡ (minted_claims signer client_id now subject o).exp)
    pub lasts : response.expires_in ≡ (minted_claims signer client_id now subject o).exp - now
