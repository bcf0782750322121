-- ===== src/Login/Faucet.antt =====
-- The faucet of sonotxt-api/src/routes/user_auth.rs takes an empty account for a new one.
use sonotxt_rust.Base.{ℕ, ◌*◌, ◌^◌, ◌≡◌, true, false, some, arith, any, find, take}
use sonotxt_rust.Base.Int.{pos}
use sonotxt_rust.Base.Bytes.{Bytes}
use sonotxt_rust.Base.Text.{Text, codes}
use sonotxt_rust.Base.Errors.{ok}
use sonotxt_rust.Base.Action.{quiet, ◌>>=◌}
use sonotxt_rust.Login.{Env}
use sonotxt_rust.Login.Tables.{Auth, UserRow, ChallengeRow, to_user, with_wallet, with_id}
use sonotxt_rust.Login.Limits.{check_rate_limit, clear_rate_limit}
use sonotxt_rust.Login.Opened.{token, IsFresh}
use sonotxt_rust.Login.WalletLogin.{Credentials, let_in}
use sonotxt_rust.Login.Routes.{response, drip_to_wallet, wallet_verify}

module _ (env : Env) (id : ℕ) (random : Bytes) (address challenge signature : Text) (a b : Auth)
    (passes : check_rate_limit quiet (codes "wallet_login") address a ≡ (ok tt, b)) where
  -- A wallet's account that is there already and has no balance is sent tokens at every login that
  -- passes the rate limit, with nobody interfering, the database answering and a token and an id
  -- that nobody has.
  pub drip_again :
      (pubkey : Bytes) (c : ChallengeRow) (u : UserRow)
      → find (with_wallet address) b.users ≡ some u
      → u.balance ≡ pos 0
      → any (with_id id) b.users ≡ false
      → IsFresh env random b
      → Credentials env id random address challenge signature b pubkey c
      → (wallet_verify env quiet quiet true id random address challenge signature a).0
        ≡ ok (
          response (to_user u) (some address) (some (token env random)),
          some (ok (record { evm_addr = take 20 pubkey; pas = 10 * 10 ^ 18; txt = 100 * 10 ^ 10 })),
        )
  unfolding wallet_verify drip_to_wallet clear_rate_limit ◌>>=◌
  drip_again pubkey c u there empty free fresh cr =
      let decodes = cr.0 in
      ground (arith, let_in env id random address challenge signature b pubkey c free fresh cr)
