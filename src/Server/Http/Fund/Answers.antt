-- ===== src/Server/Http/Fund/Answers.antt =====
-- What a client that was answered with a token can rely on: the token, and the requests after it.
use mathlib.Core.Logic.{if_pos}
use sponsor.Common.{ℕ, ◌≡◌, ◌≢◌, refl, sym, ◌∙◌, ◌<◌, true, none, some, String, arith}
use sponsor.Common.Result.{ok}
use sponsor.Common.Words.{u64_max, saturating_add}
use sponsor.Common.Text.{Text}
use sponsor.Crates.{Crates}
use sponsor.Server.Store.{GrantRecord}
use sponsor.Server.Store.Redb.{Redb}
use sponsor.Server.Store.Grants.{decode_row-updated}
use sponsor.Server.Store.Table.{decode_row}
use sponsor.Server.State.{AppState}
use sponsor.Server.Http.{
  Response, token_json, err_json, bad_request, forbidden, SystemTime, now_unix,
}
use sponsor.Server.Http.Fund.{FundRequest, internal, record_of, submit}
use sponsor.Server.Http.Fund.Ledger.{
  IsConsistent, IsIssued, IsLedger, IsIssued-record_of, row-IsIssued,
}
use sponsor.Server.Http.Fund.Outcome.{
  Granted, failed, reused, fresh, Submitted, bad_client, bad_captcha, no_captcha, passed,
  submit-Submitted,
}

pub token_json-injective : (s t : Text) → token_json s ≡ token_json t → s ≡ t
unfolding token_json
token_json-injective s t h = ground arith

pub internal-ne-token : (t : Text) → internal ≢ token_json t
unfolding token_json err_json
internal-ne-token t = ground arith

pub bad_request-ne-token : (code : String) (t : Text) → err_json bad_request code ≢ token_json t
unfolding token_json err_json
bad_request-ne-token code t = ground arith

pub forbidden-ne-token : (code : String) (t : Text) → err_json forbidden code ≢ token_json t
unfolding token_json err_json
forbidden-ne-token code t = ground arith

pub expiry_later : (now ttl : ℕ) → now < u64_max → 0 < ttl → now < saturating_add now ttl
unfolding saturating_add
expiry_later now ttl h k = ground arith

module _ (crates : Crates) (redb : Redb crates.Address crates.address_discrete) {Chain : Type 0}
    (state : AppState crates Chain) where
  open crates use {Address, address_discrete, parse_address}
  open redb use {Db, rows}

  -- `client` holds a live grant, with its token.
  pub record IsAwarded (client : Address) (now : ℕ) (token : Text) (db : Db) : Type 0 where
    pub rec : GrantRecord
    pub held : decode_row (rows db client) ≡ ok (some rec)
    pub live : now < rec.expiry
    pub token_is : rec.token ≡ token
    pub issued : IsIssued crates redb state client rec

  Granted-IsAwarded :
      IsConsistent crates redb state
      → (client : Address) (now : ℕ) (db db' : Db) (resp : Response) (token : Text) → now < u64_max
      → 0 < state.issuer.ttl_secs
      → IsLedger crates redb state db
      → Granted crates redb state client now db resp db'
      → resp ≡ token_json token
      → IsAwarded client now token db'
  Granted-IsAwarded c client now db db' resp token h ttl l (failed said same) e =
      absurd (internal-ne-token token (sym said ∙ e))
  Granted-IsAwarded c client now db db' resp token h ttl l (reused rec read live said same) e =
      record {
        rec = rec;
        held = rw same read;
        live = live;
        token_is = token_json-injective _ _ (sym said ∙ e);
        issued = row-IsIssued crates redb state l client rec read;
      }
  Granted-IsAwarded c client now db db' resp token h ttl l
        (fresh o fresh_token expiry read lapsed issued said wrote) e =
      let i =
        IsIssued-record_of crates redb state c client now fresh_token expiry (omega arith) issued in
      record {
        rec = record_of crates redb state fresh_token expiry now;
        held = rw wrote (
            decode_row-updated crates redb client client _ (rows db) i.is_record
            ∙ if_pos (address_discrete client client) refl _ _);
        live = rw i.delegates.lasts (expiry_later now state.issuer.ttl_secs h ttl);
        token_is = token_json-injective _ _ (sym said ∙ e);
        issued = i;
      }

  Submitted-IsAwarded :
      IsConsistent crates redb state
      → (time : SystemTime) (req : FundRequest) (db db' : Db) (resp : Response) (token : Text)
      → now_unix time < u64_max
      → 0 < state.issuer.ttl_secs
      → IsLedger crates redb state db
      → Submitted crates redb state time req db resp db'
      → resp ≡ token_json token
      → (client : Address) × (parse_address req.client ≡ ok client)
        × (state.turnstile.verify req.turnstile_token none ≡ ok true)
        × IsAwarded client (now_unix time) token db'
  Submitted-IsAwarded c time req db db' resp token h ttl l (bad_client e p said same) r =
      absurd (bad_request-ne-token _ token (sym said ∙ r))
  Submitted-IsAwarded c time req db db' resp token h ttl l (bad_captcha client p v said same) r =
      absurd (forbidden-ne-token _ token (sym said ∙ r))
  Submitted-IsAwarded c time req db db' resp token h ttl l (no_captcha client e p v said same) r =
      absurd (internal-ne-token token (sym said ∙ r))
  Submitted-IsAwarded c time req db db' resp token h ttl l (passed client p v g) r =
      (client, p, v, Granted-IsAwarded c client (now_unix time) db db' resp token h ttl l g r)

  -- When the configuration and the issuer agree, the ledger invariant holds, the clock is before
  -- the last 64-bit second, and the issuer gives more than 0 seconds, a token that `POST /fund`
  -- answers with goes to a client that parses and whose captcha the verifier passed, and is that
  -- of the stored record of this client, which has not expired and was issued for it.
  pub submit-IsAwarded :
      IsConsistent crates redb state
      → (time : SystemTime) (req : FundRequest) (db : Db) (token : Text) → now_unix time < u64_max
      → 0 < state.issuer.ttl_secs
      → IsLedger crates redb state db
      → (submit crates redb state time req db).0 ≡ token_json token
      → (client : Address) × (parse_address req.client ≡ ok client)
        × (state.turnstile.verify req.turnstile_token none ≡ ok true)
        × IsAwarded client (now_unix time) token (submit crates redb state time req db).1
  submit-IsAwarded c time req db token h ttl l r =
      Submitted-IsAwarded c time req db _ _ token h ttl l
        (submit-Submitted crates redb state time req db) r
